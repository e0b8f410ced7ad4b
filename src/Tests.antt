-- ===== src/Tests.antt =====
-- Examples and tests of every part.
mod Sample
mod Bus
mod Registration
mod Routing
mod Scheduling
mod Addresses
mod Overrides
mod Registries
mod Chunks
mod World
