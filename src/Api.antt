-- ===== src/Api.antt =====
-- Package spike of v2/pkg/spike: how a service's subscriptions are served.
pub mod Request
pub mod Events
pub mod Service
