-- ===== src/Manifest.antt =====
-- internal/manifest: the release contract.
pub mod Types
pub mod Check
pub mod Condition
pub mod Patterns
pub mod Locale
pub mod Graph
pub mod Sequences
pub mod Validate
pub mod Accepted
pub mod Simulate
pub mod Tests
