-- ===== src/Retention.antt =====
-- Which backups are pruned: src/internal/retention/retention.go and gfs.go, the tiers of
-- src/supported/retention/backend/tier.go, and the prune step of src/internal/scheduler/retention.go.
pub mod Policy
pub mod Chain
pub mod Tiers
pub mod Apply
pub mod Prune
pub mod Listing
pub mod Examples
