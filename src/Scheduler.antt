-- ===== src/Scheduler.antt =====
-- Running jobs: src/internal/scheduler/scheduler.go and jobs.go.
pub mod Job
pub mod Order
pub mod Slots
pub mod Progress
pub mod Examples
