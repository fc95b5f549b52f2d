-- ===== src/Core/Setscheduler.antt =====
-- `__sched_setscheduler`, `_sched_setscheduler`, `sched_setscheduler`, `sched_setattr_nocheck`,
-- `sched_set_fifo`, `sched_set_fifo_low` and `sched_set_normal` of kernel/sched/core.c.
--
-- One caller runs at a time, so the policy does not change between the two readings of it and the
-- jump back to `recheck` is not taken; the chain of priority inheritance and the balance callbacks
-- that follow the change are outside code.
pub mod Request
pub mod Change
pub mod Calls
