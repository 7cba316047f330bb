-- ===== src/Retention/Prune.antt =====
-- `DeleteBackupsWithContext` of retention.go, and `applyPrune` and `retentionPolicy` of
-- src/internal/scheduler/retention.go.
pub mod Delete
pub mod Settled
pub mod Step
pub mod Safety
