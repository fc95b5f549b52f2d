-- ===== src/Lottery.antt =====
-- The lottery scheduling class: linux-5.15.180/kernel/sched/lottery.c.
-- Each hook takes the state of the CPU and returns the new one. The hooks that the file leaves empty
-- (`yield_task_lottery`, `check_preempt_curr_lottery`, `put_prev_task_lottery`,
-- `set_next_task_lottery`, `switched_to_lottery`, `prio_changed_lottery`) return it unchanged.
pub mod Hooks
pub mod Draw
pub mod Queue
pub mod Share
pub mod Tick
