-- ===== src/Core/Runtime.antt =====
-- `task_sched_runtime` of kernel/sched/core.c, and where it calls a hook that the lottery class leaves
-- out.
use lottery_scheduler.Base.{ℕ, ◌≡◌, ◌↔◌, true, Option, none, some, arith, ◌&&◌, ◌==◌, if◌then◌else◌}
use lottery_scheduler.Task.{task_on_rq_queued}
use lottery_scheduler.Machine.{Kernel, State}
use lottery_scheduler.Core.Clock.{update_rq_clock}
use lottery_scheduler.Core.Hooks.{is_lottery, class_update_curr}

module _ {K : Kernel} where
  -- `p->se.sum_exec_runtime`, brought up to date if `p` runs; `none` is the call of a NULL pointer.
  unfoldable pub task_sched_runtime : State K → (p : ℕ) → Option (ℕ × State K)
  unfolding class_update_curr
  task_sched_runtime s p =
      if p == s.rq.curr && (s.tasks p).on_rq == task_on_rq_queued
      then class_update_curr (update_rq_clock s) (s.tasks p).sched_class p
      else some ((s.tasks p).se.sum_exec_runtime, s)

  -- Asking for the run time of a task faults exactly if the task is on the CPU, is queued and belongs
  -- to the lottery class.
  pub task_sched_runtime-fault :
      (s : State K) (p : ℕ)
      → (task_sched_runtime s p ≡ none) ↔ (
          (p ≡ s.rq.curr)
          × ((s.tasks p).on_rq ≡ task_on_rq_queued)
          × (is_lottery (s.tasks p).sched_class ≡ true))
  unfolding task_sched_runtime
  task_sched_runtime-fault s p = (λ h. ground arith, λ (c, q, own). ground arith)
