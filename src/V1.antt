-- ===== src/V1.antt =====
-- Version 1 of the broker, in pkg of the repository.
pub mod Auth
pub mod Socket
pub mod Connection
pub mod Endpoint
pub mod Handler
pub mod Init
pub mod Lock
pub mod Middleware
pub mod Migration
pub mod Nats
pub mod Request
pub mod Rest
pub mod Rids
pub mod Route
pub mod Routes
pub mod Search
pub mod Start
pub mod Url
