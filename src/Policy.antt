-- ===== src/Policy.antt =====
-- The path pattern engine (internal/domain/policy).
pub mod Glob
pub mod Rows
pub mod Compile
pub mod Engine
