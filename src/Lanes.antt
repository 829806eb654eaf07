-- ===== src/Lanes.antt =====
-- internal/adapters/sqlite: the coordination of one destination lane and of its route.
pub mod Rows
pub mod Completion
pub mod Intents
pub mod Groups
pub mod Activation
pub mod Merging
pub mod Promotion
pub mod Handover
pub mod Reach
