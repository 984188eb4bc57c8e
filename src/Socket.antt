-- ===== src/Socket.antt =====
-- Package socket of v2/pkg/spike/socket: the WebSocket side of the HTTP server.
pub mod Endpoint
pub mod Message
pub mod Handlers
pub mod Event
pub mod Loop
