-- ===== src/Engine/Outbox.antt =====
-- internal/engine/outbox.go: how committed events become webhook deliveries, and how these are
-- attempted, retried and given up.
pub mod FanOut
pub mod Attempts
pub mod Tick
pub mod Laws
pub mod Unique
pub mod Leases
mod Tests
