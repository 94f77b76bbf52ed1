-- ===== src/Token.antt =====
-- pkg/submit-token: the tokens that show that a domain's owner submits a leaf.
pub mod SubmitToken
pub mod Laws
