-- ===== src/Tests.antt =====
-- Concrete inputs: each theorem at a case that meets its hypotheses, and runs of the definitions.
mod World
mod Rids
mod Broker
mod Burst
mod Api
mod Service
mod Http
mod Lifecycle
mod Socket
mod Nats
mod Lock
mod NatsProvider
mod UnitTests
mod V1
mod V1Route
mod RawData
mod V1Socket
mod V1Nats
mod V1Start
mod V1Whole
