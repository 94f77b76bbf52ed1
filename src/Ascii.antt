-- ===== src/Ascii.antt =====
-- pkg/ascii: lines of key=value pairs.
pub mod Line
pub mod Parser
pub mod Writer
pub mod RoundTrip
pub mod Fields
pub mod Splits
