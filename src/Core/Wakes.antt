-- ===== src/Core/Wakes.antt =====
-- `try_to_wake_up` and `wake_up_new_task` of kernel/sched/core.c keep the invariant of the core.
use Prim.Native.Nat.{bit_or}
use lottery_scheduler.Base.{ℕ, ◌≡◌, ◌≢◌, false, arith, ◌==◌, Bool-cases, inl, inr, sub32}
use lottery_scheduler.Task.{
  task_on_rq_queued, task_running, enqueue_wakeup, enqueue_noclock, test_bits,
}
use lottery_scheduler.Machine.{Kernel, State}
use lottery_scheduler.Core.Clock.{update_rq_clock}
use lottery_scheduler.Core.Schedule.{set_state}
use lottery_scheduler.Core.Wakeup.{
  ttwu_do_wakeup, ttwu_do_activate, ttwu_runnable, ttwu_queue, ttwu_queue_unless, try_to_wake_up,
  wake_up_new_task,
}
use lottery_scheduler.Core.Frame.{
  Frame, Frame-trans, Frame-ext, Frame-update_rq_clock, Frame-check_preempt_curr,
}
use lottery_scheduler.Core.System.{IsSystem, Frame-IsSystem, activate_task-IsSystem}
use lottery_scheduler.Core.Blocking.{
  Frame-set_state, Frame-count_uninterruptible, Frame-count_iowait,
}

module _ {K : Kernel} where
  pub Frame-ttwu_do_wakeup : (s : State K) (p flags : ℕ) → Frame s (ttwu_do_wakeup s p flags)
  unfolding ttwu_do_wakeup
  Frame-ttwu_do_wakeup s p flags =
      Frame-trans (Frame-check_preempt_curr s p flags) (Frame-set_state _ p task_running)

  abbrev Off : State K → ℕ → Type 0
  Off s p = ((s.tasks p).on_rq == task_on_rq_queued) ≡ false

  module _ {s : State K} (i : IsSystem s) (p flags : ℕ) where
    ttwu_do_activate-IsSystem : Off s p → IsSystem (ttwu_do_activate s p flags)
    unfolding ttwu_do_activate
    ttwu_do_activate-IsSystem off =
        let t = s.tasks p in
        let f =
          Frame-trans (Frame-count_uninterruptible t.sched_contributes_to_load sub32 s)
            (Frame-count_iowait t.in_iowait sub32 _) in
        Frame-IsSystem (Frame-ttwu_do_wakeup _ p flags) (
          activate_task-IsSystem (Frame-IsSystem f i) p (bit_or enqueue_wakeup enqueue_noclock)
            (ground (arith, f.tasks p)))

  ttwu_queue-IsSystem :
      {s : State K} → IsSystem s → (p flags : ℕ) → Off s p → IsSystem (ttwu_queue s p flags)
  unfolding ttwu_queue
  ttwu_queue-IsSystem {s} i p flags off =
      let f = Frame-update_rq_clock s in
      ttwu_do_activate-IsSystem (Frame-IsSystem f i) p flags (ground (arith, f.tasks p))

  ttwu_on_rq-IsSystem :
      {s : State K}
      → IsSystem s
      → (p flags : ℕ) → IsSystem (ttwu_queue_unless (ttwu_runnable s p flags) p flags)
  unfolding ttwu_queue_unless ttwu_runnable
  ttwu_on_rq-IsSystem {s} i p flags = elim (Bool-cases ((s.tasks p).on_rq == task_on_rq_queued)) [
    | inl on ↦
        rw on (
          Frame-IsSystem (Frame-trans (Frame-update_rq_clock s) (Frame-ttwu_do_wakeup _ p flags)) i)
    | inr off ↦ rw off (ttwu_queue-IsSystem i p flags off)
  ]

  -- A wakeup keeps the invariant on every branch: the wakeup of the running task, of a task that
  -- is still queued, of one that must be enqueued, and the one that does not match the state.
  pub try_to_wake_up-IsSystem :
      {s : State K} → IsSystem s → (p state flags : ℕ) → IsSystem (try_to_wake_up s p state flags).1
  unfolding try_to_wake_up
  try_to_wake_up-IsSystem {s} i p state flags =
      elim (Bool-cases (test_bits (s.tasks p).state state)) [
        | inr mismatch ↦ rw mismatch i
        | inl match ↦ elim (Bool-cases (p == s.rq.curr)) [
          | inl current ↦ rw (match, current) (Frame-IsSystem (Frame-set_state s p task_running) i)
          | inr other ↦ elim (Bool-cases ((s.tasks p).on_rq == 0)) [
            | inl off ↦ rw (match, other, off) (ttwu_queue-IsSystem i p flags (ground arith))
            | inr on ↦ rw (match, other, on) (ttwu_on_rq-IsSystem i p flags)
          ]
        ]
      ]

  -- The first wakeup of a new task keeps the invariant.
  pub wake_up_new_task-IsSystem :
      {s : State K}
      → IsSystem s
      → (p : ℕ) → (s.tasks p).on_rq ≢ task_on_rq_queued
      → IsSystem (wake_up_new_task s p)
  unfolding wake_up_new_task
  wake_up_new_task-IsSystem {s} i p off =
      let f =
        Frame-trans (Frame-trans (Frame-set_state s p task_running) (Frame-update_rq_clock _)) (
          Frame-ext _
            (K.post_init_entity_util_avg p (update_rq_clock (set_state s p task_running)).ext)) in
      Frame-IsSystem (Frame-check_preempt_curr _ p _)
        (activate_task-IsSystem (Frame-IsSystem f i) p enqueue_noclock (ground (arith, f.tasks p)))
