-- ===== src/Uclamp.antt =====
-- Utilization clamping of kernel/sched/core.c (CONFIG_UCLAMP_TASK, without CONFIG_UCLAMP_TASK_GROUP).
pub mod Values
pub mod Rq
pub mod Highest
pub mod Clamped
pub mod Left
pub mod Kept
pub mod Enqueued
pub mod Dequeued
pub mod Refreshed
pub mod Promise
