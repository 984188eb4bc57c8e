-- ===== src/Nats.antt =====
-- Package nats of v2/pkg/broker/providers/nats: how a request waits for its response.
pub mod Ring
pub mod Subject
pub mod Response
pub mod Provider
