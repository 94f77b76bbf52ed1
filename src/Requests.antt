-- ===== src/Requests.antt =====
-- pkg/requests: the request bodies.
pub mod AddCheckpoint
pub mod LogRequests
