-- ===== src/Dispatch.antt =====
-- internal/app/dispatch: the classification of outcomes, the planner and the destination selection.
pub mod Classify
pub mod Planner
pub mod Selection
