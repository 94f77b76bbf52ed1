-- ===== src/Submit.antt =====
-- pkg/submit: the submission of a leaf to a log, and the proof that comes back.
pub mod Submission
pub mod Accepted
