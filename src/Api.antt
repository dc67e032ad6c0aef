-- ===== src/Api.antt =====
-- internal/api/server.go: what the HTTP server does with a request. decodeJSON reads a body by
-- encoding/json, and is a parameter here; the middleware only observes.
pub mod Auth
pub mod Path
pub mod Status
pub mod Server
pub mod Mux
pub mod Handler
pub mod Served
pub mod Closed
mod Forbidden
mod Examples
