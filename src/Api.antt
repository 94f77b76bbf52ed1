-- ===== src/Api.antt =====
-- pkg/api, pkg/client and pkg/types/endpoint.go: the interfaces between clients and servers, the errors with an
-- HTTP status code, and the client that speaks HTTP.
pub mod Errors
pub mod Interfaces
pub mod Endpoint
pub mod Http
pub mod Client
pub mod ClientLaws
