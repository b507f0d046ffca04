-- ===== src/Engine/Feedback.antt =====
-- internal/engine/feedback.go: `doFeedback`. What a provider reports of a message is applied once,
-- and a bounce or a complaint suppresses the address.
pub mod Steps
pub mod Rounds
pub mod Ses
pub mod Receive
pub mod Again
pub mod Suppresses
pub mod Final
pub mod Authentic
mod Tests
