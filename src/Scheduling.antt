-- ===== src/Scheduling.antt =====
-- scheduling/ and lifecycle/retry.py: jobs that fire later.
pub mod Scheduler
pub mod Retry
