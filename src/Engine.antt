-- ===== src/Engine.antt =====
-- internal/engine: durable jobs, deliveries, enrollments and consent over the database.
pub mod Configs
pub mod Env
pub mod Jobs
pub mod Limits
pub mod Lookup
pub mod Completion
pub mod Delivery
pub mod Consent
pub mod Schedule
pub mod Events
pub mod Operations
pub mod Addresses
pub mod Registry
pub mod Releases
pub mod Transports
pub mod Feedback
pub mod Authority
pub mod Entry
pub mod Outbox
pub mod Worker
pub mod Sample
mod Tests
