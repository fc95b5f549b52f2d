-- ===== src/Group.antt =====
-- Task groups and their CPU bandwidth in kernel/sched/core.c (CONFIG_CFS_BANDWIDTH).
pub mod Walk
pub mod Forest
pub mod Visit
pub mod Limits
pub mod Bandwidth
pub mod Quota
pub mod Walked
pub mod Schedulable
pub mod Changed
pub mod Refused
pub mod Accepted
pub mod Unified
pub mod ReadBack
