-- ===== src/Retention/Apply.antt =====
-- `ApplyRetentionAt` of src/internal/retention/retention.go.
pub mod Defs
pub mod Kept
pub mod Fate
pub mod Deleted
pub mod Editions
