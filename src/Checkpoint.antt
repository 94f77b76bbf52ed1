-- ===== src/Checkpoint.antt =====
-- pkg/checkpoint: checkpoints, their signature lines and cosignature lines.
pub mod Signature
pub mod Checkpoint
pub mod Cosignature
pub mod NoteVerifier
