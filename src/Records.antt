-- ===== src/Records.antt =====
-- The canonical record value objects (internal/domain/records).
pub mod Enums
pub mod Paths
pub mod Fanout
