-- ===== src/Retention.antt =====
-- How long records are kept: configured durations and the retention policy.
pub mod Durations
pub mod Policies
pub mod Bounds
