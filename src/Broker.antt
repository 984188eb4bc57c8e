-- ===== src/Broker.antt =====
-- Package broker of v2/pkg/broker: messages and errors, calls, and the provider over a specific
-- implementation.
pub mod Message
pub mod Call
pub mod CallV1
pub mod Provider
pub mod RawData
