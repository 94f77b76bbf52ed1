-- ===== src/Monitor.antt =====
-- pkg/monitor: the verifying client of a log and the loop that follows the log.
pub mod Client
pub mod Loop
pub mod Range
pub mod Single
pub mod Filter
pub mod Fetch
pub mod Stale
pub mod Update
pub mod Rounds
