-- ===== src/Core.antt =====
-- The scheduler core, linux-5.15.180/kernel/sched/core.c, with the helpers of kernel/sched/sched.h
-- that it calls, for a kernel of one CPU (no CONFIG_SMP) without SCHED_CORE, UCLAMP_TASK,
-- CGROUP_SCHED, SCHED_DEBUG, SCHED_HRTICK, PARAVIRT and IRQ time accounting. Locks, barriers, RCU and
-- trace points have no part in the state.
pub mod Resched
pub mod Clock
pub mod Hooks
pub mod Queue
pub mod Pick
pub mod Schedule
pub mod Wakeup
pub mod Frame
pub mod Keeps
pub mod PickFrame
pub mod Members
pub mod System
pub mod Running
pub mod Blocking
pub mod Switch
pub mod Wakes
pub mod Prio
pub mod Load
pub mod Nice
pub mod Requeue
pub mod Setscheduler
pub mod Rewrites
pub mod OnlyLottery
pub mod PolicyChange
pub mod Granted
pub mod Boost
pub mod Boosted
pub mod Fork
pub mod Forked
pub mod Order
pub mod Undrawn
pub mod Stays
pub mod Kept
pub mod Spared
pub mod Reach
pub mod Runtime
pub mod Charged
pub mod Told
pub mod Obeyed
