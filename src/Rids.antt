-- ===== src/Rids.antt =====
-- The resource identifiers of v2/pkg/rids: a service's base, the methods that it builds, and the
-- patterns that name an endpoint.
pub mod Verb
pub mod Method
pub mod Pattern
pub mod Names
pub mod Fill
pub mod Shape
pub mod Base
