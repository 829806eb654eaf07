-- ===== src/State.antt =====
-- The state machines of dispatch intents and of routes (internal/domain/state).
pub mod Errors
pub mod Intent
pub mod Projection
pub mod Route
