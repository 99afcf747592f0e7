-- ===== src/Scheduler.antt =====
-- internal/scheduler: the open workload model.
pub mod Open
