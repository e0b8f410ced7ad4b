-- ===== src/Comm.antt =====
-- world/communication: the message bus.
pub mod Error
pub mod Envelope
pub mod Queue
pub mod Schema
pub mod Route
pub mod Registries
pub mod Router
pub mod Runtime
pub mod Scheduler
