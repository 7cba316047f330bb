-- ===== src/Retention/Tiers.antt =====
-- The hourly to yearly tiers of src/supported/retention/backend/tier.go and their hook in gfs.go.
pub mod Scan
pub mod Budget
