-- ===== src/Core/Wakeup.antt =====
-- `ttwu_do_wakeup`, `ttwu_do_activate`, `ttwu_runnable`, `ttwu_queue`, `ttwu_state_match`,
-- `try_to_wake_up`, `wake_up_process` and `wake_up_new_task` of kernel/sched/core.c.
use Prim.Native.Nat.{bit_or}
use lottery_scheduler.Base.{ℕ, Bool, true, false, not, ◌==◌, if◌then◌else◌, sub32}
use lottery_scheduler.Task.{
  test_bits, enqueue_wakeup, enqueue_noclock, task_on_rq_queued, task_running, task_normal,
}
use lottery_scheduler.Machine.{Kernel, State, with_ext}
use lottery_scheduler.Core.Clock.{update_rq_clock}
use lottery_scheduler.Core.Queue.{activate_task, check_preempt_curr}
use lottery_scheduler.Core.Schedule.{set_state, count_uninterruptible, count_iowait}

abbrev wf_fork : ℕ
wf_fork = 0x04

module _ {K : Kernel} where
  unfoldable pub ttwu_do_wakeup : State K → (p wake_flags : ℕ) → State K
  ttwu_do_wakeup s p wake_flags = set_state (check_preempt_curr s p wake_flags) p task_running

  unfoldable pub ttwu_do_activate : State K → (p wake_flags : ℕ) → State K
  unfolding ttwu_do_wakeup
  ttwu_do_activate s p wake_flags =
      let t = s.tasks p in
      let counted =
        count_iowait t.in_iowait sub32
          (count_uninterruptible t.sched_contributes_to_load sub32 s) in
      ttwu_do_wakeup (activate_task counted p (bit_or enqueue_wakeup enqueue_noclock)) p wake_flags

  unfoldable pub ttwu_runnable : State K → (p wake_flags : ℕ) → Bool × State K
  unfolding ttwu_do_wakeup
  ttwu_runnable s p wake_flags =
      if (s.tasks p).on_rq == task_on_rq_queued
      then (true, ttwu_do_wakeup (update_rq_clock s) p wake_flags)
      else (false, s)

  unfoldable pub ttwu_queue : State K → (p wake_flags : ℕ) → State K
  unfolding ttwu_do_activate
  ttwu_queue s p wake_flags = ttwu_do_activate (update_rq_clock s) p wake_flags

  -- What follows `ttwu_runnable` for a task on the run queue.
  unfoldable pub ttwu_queue_unless : Bool × State K → (p wake_flags : ℕ) → State K
  ttwu_queue_unless (done, s) p wake_flags = if done then s else ttwu_queue s p wake_flags

  -- The new state and whether a wakeup was done. `current` is the task on the CPU.
  unfoldable pub try_to_wake_up : State K → (p state wake_flags : ℕ) → Bool × State K
  unfolding ttwu_runnable ttwu_queue ttwu_queue_unless
  try_to_wake_up s p state wake_flags =
      if not (test_bits (s.tasks p).state state)
      then (false, s)
      else if p == s.rq.curr
      then (true, set_state s p task_running)
      else if not ((s.tasks p).on_rq == 0)
      then (true, ttwu_queue_unless (ttwu_runnable s p wake_flags) p wake_flags)
      else (true, ttwu_queue s p wake_flags)

  unfoldable pub wake_up_process : State K → (p : ℕ) → Bool × State K
  unfolding try_to_wake_up
  wake_up_process s p = try_to_wake_up s p task_normal 0

  unfoldable pub wake_up_new_task : State K → (p : ℕ) → State K
  wake_up_new_task s p =
      let ticked = update_rq_clock (set_state s p task_running) in
      let ready = with_ext ticked (K.post_init_entity_util_avg p ticked.ext) in
      check_preempt_curr (activate_task ready p enqueue_noclock) p wf_fork
