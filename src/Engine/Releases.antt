-- ===== src/Engine/Releases.antt =====
-- internal/engine/releases.go: how a release is planned, deployed and rolled back.
pub mod Plan
pub mod Activate
pub mod Parts
pub mod Active
pub mod Rollback
pub mod Careful
mod Tests
