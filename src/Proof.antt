-- ===== src/Proof.antt =====
-- pkg/proof: the proof that a message is logged.
pub mod SigsumProof
pub mod Logged
