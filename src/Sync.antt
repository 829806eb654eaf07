-- ===== src/Sync.antt =====
-- The signed records of wiki synchronization (internal/domain/syncrecords).
pub mod Patterns
pub mod Endpoint
pub mod Membership
pub mod Verification
