-- ===== src/Monitoring.antt =====
-- The monitoring plans (src/monitoring/plans.js): when a plan runs, and the executions made of it.
pub mod LocalTime
pub mod Schedule
pub mod Plans
