-- ===== src/Engine/Consent.antt =====
-- internal/engine/consent.go: how a contact's consent to a list begins, is confirmed and ends.
pub mod Subscribe
pub mod Confirm
pub mod Unsubscribe
pub mod Once
pub mod Stops
pub mod Pending
