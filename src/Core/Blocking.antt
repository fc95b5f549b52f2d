-- ===== src/Core/Blocking.antt =====
-- The parts of `__schedule` of kernel/sched/core.c around the choice of the next task: blocking, and
-- the bookkeeping that does not touch the lottery queue.
use Prim.Native.Nat.{bit_or}
use lottery_scheduler.Base.{ℕ, ◌≡◌, ◌≢◌, refl, ◌∙◌, Bool, true, arith, ◌==◌, add32}
use lottery_scheduler.Task.{task_on_rq_queued, dequeue_sleep, enqueue_noclock}
use lottery_scheduler.Machine.{Kernel, State}
use lottery_scheduler.Core.Queue.{deactivate_task, set_on_rq}
use lottery_scheduler.Core.Schedule.{
  set_state, count_uninterruptible, count_iowait, set_contributes, block, schedule_clock,
  clear_need_resched, count_switch, contributes_to_load,
}
use lottery_scheduler.Core.Frame.{
  Frame, Frame-refl, Frame-trans, Frame-if, Frame-put_task, Frame-rest, Frame-update_rq_clock,
}
use lottery_scheduler.Core.System.{IsSystem, Frame-IsSystem, deactivate_task-IsSystem}
use lottery_scheduler.Core.Members.{dequeue_task-curr, dequeue_task-idle, dequeue_task-on_rq}

module _ {K : Kernel} where
  pub Frame-set_state : (s : State K) (p v : ℕ) → Frame s (set_state s p v)
  unfolding set_state
  Frame-set_state s p v = Frame-put_task s p _ (ground arith)

  pub Frame-count_uninterruptible :
      (b : Bool) (f : ℕ → ℕ → ℕ) (s : State K) → Frame s (count_uninterruptible b f s)
  unfolding count_uninterruptible
  Frame-count_uninterruptible b f s =
      Frame-if b (Frame-rest (Frame-refl s) refl refl refl refl refl) (Frame-refl s)

  pub Frame-count_iowait : (b : Bool) (f : ℕ → ℕ → ℕ) (s : State K) → Frame s (count_iowait b f s)
  unfolding count_iowait
  Frame-count_iowait b f s =
      Frame-if b (Frame-rest (Frame-refl s) refl refl refl refl refl) (Frame-refl s)

  pub Frame-schedule_clock : (s : State K) → Frame s (schedule_clock s)
  unfolding schedule_clock
  Frame-schedule_clock s =
      Frame-trans (Frame-rest (Frame-refl s) refl refl refl refl refl) (Frame-update_rq_clock _)

  pub Frame-clear_need_resched : (s : State K) (p : ℕ) → Frame s (clear_need_resched s p)
  unfolding clear_need_resched
  Frame-clear_need_resched s p =
      Frame-rest (Frame-put_task s p _ (ground arith)) refl refl refl refl refl

  pub Frame-count_switch : (s : State K) (p : ℕ) (b : Bool) → Frame s (count_switch s p b)
  unfolding count_switch
  Frame-count_switch s p b = Frame-put_task s p _ (ground arith)

  -- What `block` has when it calls `deactivate_task`.
  abbrev deactivating : State K → ℕ → State K
  deactivating s p =
      let load = contributes_to_load (s.tasks p).state (s.tasks p).flags in
      count_uninterruptible load add32 (set_contributes s p load)

  Frame-deactivating : (s : State K) (p : ℕ) → Frame s (deactivating s p)
  unfolding set_contributes
  Frame-deactivating s p =
      let load = contributes_to_load (s.tasks p).state (s.tasks p).flags in
      Frame-trans (Frame-put_task s p _ (ground arith))
        (Frame-count_uninterruptible load add32 (set_contributes s p load))

  -- A task that blocks is taken off its queue; the invariant stays.
  pub block-IsSystem :
      {s : State K}
      → IsSystem s
      → (p : ℕ) → ((s.tasks p).on_rq == task_on_rq_queued) ≡ true
      → IsSystem (block s p)
  unfolding block
  block-IsSystem {s} i p on =
      let f = Frame-deactivating s p in
      Frame-IsSystem (Frame-count_iowait (s.tasks p).in_iowait add32 _) (
        deactivate_task-IsSystem (Frame-IsSystem f i) p (bit_or dequeue_sleep enqueue_noclock)
          (ground (arith, f.tasks p)))

  pub block-curr : (s : State K) (p : ℕ) → (block s p).rq.curr ≡ s.rq.curr
  unfolding block deactivate_task set_on_rq
  block-curr s p =
      (Frame-count_iowait (s.tasks p).in_iowait add32 _).curr
      ∙ dequeue_task-curr _ p _
      ∙ (Frame-deactivating s p).curr

  pub block-idle : (s : State K) (p : ℕ) → (block s p).rq.idle ≡ s.rq.idle
  unfolding block deactivate_task set_on_rq
  block-idle s p =
      (Frame-count_iowait (s.tasks p).in_iowait add32 _).idle
      ∙ dequeue_task-idle _ p _
      ∙ (Frame-deactivating s p).idle

  pub block-on_rq :
      (s : State K) (p q : ℕ) → q ≢ p → ((block s p).tasks q).on_rq ≡ (s.tasks q).on_rq
  unfolding block deactivate_task set_on_rq
  block-on_rq s p q other =
      let out : ((set_on_rq (deactivating s p) p _).tasks q).on_rq
          ≡ ((deactivating s p).tasks q).on_rq =
        ground arith in
      ((Frame-count_iowait (s.tasks p).in_iowait add32 _).tasks q).on_rq
      ∙ dequeue_task-on_rq _ p _ q
      ∙ out
      ∙ ((Frame-deactivating s p).tasks q).on_rq
