-- ===== src/Schedule.antt =====
-- Schedules of jobs: src/internal/config/schedule.go, the day filters of src/supported/config/days.go,
-- and the waits that src/internal/scheduler/cron.go computes from them.
pub mod Data
pub mod Blackout
pub mod Grid
pub mod Rounds
pub mod Wait
pub mod Times
pub mod Examples
