-- ===== src/Cron.antt =====
-- Cron expressions: src/internal/scheduler/cron.go and the cron part of src/internal/config/schedule.go.
pub mod Field
pub mod Commas
pub mod Validate
pub mod Next
pub mod Window
pub mod Satisfy
pub mod Examples
