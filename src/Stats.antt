-- ===== src/Stats.antt =====
-- Usage statistics: src/internal/stats.
pub mod Version
pub mod Newer
pub mod Tracker
pub mod Count
pub mod Examples
