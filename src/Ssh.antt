-- ===== src/Ssh.antt =====
-- internal/ssh and pkg/key: SSH formats, the agent protocol and key files.
pub mod Wire
pub mod PublicKeys
pub mod PublicKeyLaws
pub mod PrivateKeys
pub mod Agent
pub mod KeyFiles
pub mod KeyFileLaws
pub mod Signers
pub mod PrivateKeyLaws
