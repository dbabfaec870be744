-- ===== src/Tests.antt =====
-- Concrete runs: a small beacon, and each theorem of the library at an input of it.
mod Data
mod Tables
mod Limits
mod Relays
mod Bridge
mod Handlers
mod Transport
mod Lifecycle
mod Admission
mod Registries
mod Delivery
mod Concurrency
