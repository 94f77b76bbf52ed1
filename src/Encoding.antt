-- ===== src/Encoding.antt =====
-- The text encodings of the standard library that the program uses.
pub mod Decimal
pub mod Hex
pub mod Base64
pub mod Fixed
pub mod Base64Laws
