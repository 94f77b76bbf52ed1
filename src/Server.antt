-- ===== src/Server.antt =====
-- pkg/server: the HTTP handlers in front of a log, a secondary and a witness.
pub mod Handlers
pub mod Log
pub mod Witness
pub mod EndToEnd
