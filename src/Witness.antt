-- ===== src/Witness.antt =====
-- cmd/sigsum-witness: the witness, and what holds of every run of it.
pub mod State
pub mod Handler
pub mod Accept
pub mod Run
pub mod Reload
