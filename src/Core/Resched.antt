-- ===== src/Core/Resched.antt =====
-- `resched_curr` of kernel/sched/core.c on the only CPU.
use lottery_scheduler.Base.{ℕ, Bool, true, if◌then◌else◌}
use lottery_scheduler.Task.{write}
use lottery_scheduler.Machine.{Kernel, State, put_task}

module _ {K : Kernel} where
  -- `set_tsk_need_resched(p)`
  unfoldable pub set_tsk_need_resched : State K → ℕ → State K
  unfolding put_task write
  set_tsk_need_resched s p = put_task s p (record (s.tasks p) { need_resched = true })

  unfoldable pub resched_curr : State K → State K
  unfolding set_tsk_need_resched
  resched_curr s =
      if (s.tasks s.rq.curr).need_resched
      then s
      else record (set_tsk_need_resched s s.rq.curr) { preempt_need_resched = true }

  unfoldable pub resched_curr_if : Bool → State K → State K
  unfolding resched_curr
  resched_curr_if b s = if b then resched_curr s else s
