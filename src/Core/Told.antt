-- ===== src/Core/Told.antt =====
-- What `__sched_setscheduler` of kernel/sched/core.c leaves the task with: the policy that was asked
-- for and SCHED_RESET_ON_FORK.
use lottery_scheduler.Base.{
  ℕ, ◌≡◌, refl, ap, ◌∙◌, Bool, true, false, Option, none, some, arith, ◌&&◌, ◌||◌, not, ◌==◌,
  if◌then◌else◌, Bool-cases, inl, inr, ℤ, ltb_ℤ, eqb_ℤ,
}
use Prim.Native.Nat.{bit_or}
use lottery_scheduler.Task.{Tasks, SchedClass, class_eq, task_on_rq_queued, test_bits, write}
use lottery_scheduler.Machine.{Kernel, Attr, State, put_task}
use lottery_scheduler.Lottery.Hooks.{switched_from_lottery, dequeue_task_lottery}
use lottery_scheduler.Core.Resched.{resched_curr, resched_curr_if}
use lottery_scheduler.Core.Hooks.{
  is_lottery, after_hook, class_prio_changed, class_switched_to, class_switched_from,
  class_put_prev_task, class_set_next_task,
}
use lottery_scheduler.Core.Queue.{enqueue_task, dequeue_task, check_class_changed}
use lottery_scheduler.Core.Pick.{put_prev_task, set_next_task}
use lottery_scheduler.Core.Load.{set_load, set_load_weight}
use lottery_scheduler.Core.Prio.{setscheduler_prio, rt_effective_prio, priority_of}
use lottery_scheduler.Core.Members.{enqueue_task-tasks, dequeue_task-tasks}
use lottery_scheduler.Core.PolicyChange.{requeue_around}
use lottery_scheduler.Core.Setscheduler.Request.{setparam_policy, keep_params_flag}
use lottery_scheduler.Core.Setscheduler.Change.{
  setscheduler_params, write_params, set_reset_on_fork, set_params, requeue, change_scheduler,
}

module _ {K : Kernel} where
  -- No task changes its policy or SCHED_RESET_ON_FORK.
  record SameTold (s t : State K) : Type 0 where
    policy : (q : ℕ) → (t.tasks q).policy ≡ (s.tasks q).policy
    reset : (q : ℕ) → (t.tasks q).sched_reset_on_fork ≡ (s.tasks q).sched_reset_on_fork

  SameTold-refl : (s : State K) → SameTold s s
  SameTold-refl s = record { policy = λ q. refl; reset = λ q. refl }

  SameTold-trans : {s t u : State K} → SameTold s t → SameTold t u → SameTold s u
  SameTold-trans f g = record {
    policy = λ q. g.policy q ∙ f.policy q;
    reset = λ q. g.reset q ∙ f.reset q;
  }

  SameTold-if :
      (b : Bool) {s t u : State K} → SameTold s t → SameTold s u → SameTold s (if b then t else u)
  SameTold-if true f g = f
  SameTold-if false f g = g

  same_tasks : {s t : State K} → t.tasks ≡ s.tasks → SameTold s t
  same_tasks e = record {
    policy = λ q. ap (λ m. (m q).policy) e;
    reset = λ q. ap (λ m. (m q).sched_reset_on_fork) e;
  }

  SameTold-after_hook : (s : State K) (r : Bool × K.Ext) → SameTold s (after_hook s r)
  unfolding after_hook resched_curr_if resched_curr put_task write
  SameTold-after_hook s (b, e) = record { policy = λ q. ground arith; reset = λ q. ground arith }

  SameTold-running :
      (b : Bool) (s : State K) (p : ℕ) → SameTold s (if b then put_prev_task s p else s)
  unfolding put_prev_task class_put_prev_task
  SameTold-running b s p =
      SameTold-if b
        (SameTold-if (is_lottery (s.tasks p).sched_class) (SameTold-refl s) (same_tasks refl))
        (SameTold-refl s)

  SameTold-resume :
      (b : Bool) (s : State K) (p : ℕ) → SameTold s (if b then set_next_task s p else s)
  unfolding set_next_task class_set_next_task
  SameTold-resume b s p =
      SameTold-if b
        (SameTold-if (is_lottery (s.tasks p).sched_class) (SameTold-refl s) (same_tasks refl))
        (SameTold-refl s)

  SameTold-prio_changed :
      (s : State K) (c : SchedClass) (p : ℕ) → SameTold s (class_prio_changed s c p)
  unfolding class_prio_changed
  SameTold-prio_changed s c p =
      SameTold-if (is_lottery c) (SameTold-refl s) (SameTold-after_hook s _)

  SameTold-switched_to :
      (s : State K) (c : SchedClass) (p : ℕ) → SameTold s (class_switched_to s c p)
  unfolding class_switched_to
  SameTold-switched_to s c p =
      SameTold-if (is_lottery c) (SameTold-refl s) (SameTold-after_hook s _)

  SameTold-switched_lottery : (s : State K) (p : ℕ) → SameTold s (switched_from_lottery s p)
  unfolding switched_from_lottery dequeue_task_lottery
  SameTold-switched_lottery s p = record { policy = λ q. ground arith; reset = λ q. ground arith }

  SameTold-switched_from :
      (s : State K) (c : SchedClass) (p : ℕ) → SameTold s (class_switched_from s c p)
  unfolding class_switched_from
  SameTold-switched_from s c p =
      SameTold-if (is_lottery c) (SameTold-switched_lottery s p) (by_hook (K.ops c).switched_from)
    where
      by_hook :
          (o : Option (Tasks → ℕ → K.Ext → Bool × K.Ext))
          → SameTold s (elim o as (λ _. State K) [
            | none ↦ s
            | some hook ↦ after_hook s (hook s.tasks p s.ext)
          ])
      by_hook none = SameTold-refl s
      by_hook (some hook) = SameTold-after_hook s _

  SameTold-check_class_changed :
      (s : State K) (p : ℕ) (c : SchedClass) (oldprio : ℤ)
      → SameTold s (check_class_changed s p c oldprio)
  unfolding check_class_changed
  SameTold-check_class_changed s p c oldprio =
      let c' = (s.tasks p).sched_class in
      elim (Bool-cases (class_eq c c')) [
        | inl same ↦ rw same (
            SameTold-if (not (eqb_ℤ oldprio (s.tasks p).prio) || K.dl_prio (s.tasks p).prio)
              (SameTold-prio_changed s c' p) (SameTold-refl s))
        | inr changed ↦
            rw changed (SameTold-trans (SameTold-switched_from s c p) (SameTold-switched_to _ c' p))
      ]

  -- What a reader of the policy sees of a task.
  abbrev pub Told : State K → (p policy : ℕ) → Bool → Type 0
  Told s p policy reset = ((s.tasks p).policy ≡ policy) × ((s.tasks p).sched_reset_on_fork ≡ reset)

  SameTold-Told :
      {s t : State K}
      → SameTold s t
      → (p policy : ℕ) (b : Bool) → Told s p policy b
      → Told t p policy b
  SameTold-Told f p policy b (e, r) = (f.policy p ∙ e, f.reset p ∙ r)

  requeue_around-Told :
      (s : State K) (p flags : ℕ) (flags' : State K → ℕ) (change : State K → State K) (policy : ℕ)
      (b : Bool)
      → ((u : State K)
          → (u.tasks p).sched_reset_on_fork ≡ (s.tasks p).sched_reset_on_fork
          → Told (change u) p policy b)
      → Told (requeue_around s p flags flags' change) p policy b
  requeue_around-Told s p flags flags' change policy b tells =
      let queued = (s.tasks p).on_rq == task_on_rq_queued in
      let running = p == s.rq.curr in
      let out = if queued then dequeue_task s p flags else s in
      let put = if running then put_prev_task out p else out in
      let back = if queued then enqueue_task (change put) p (flags' put) else change put in
      let left : SameTold s put =
        SameTold-trans
          (SameTold-if queued (same_tasks (dequeue_task-tasks s p flags)) (SameTold-refl s))
          (SameTold-running running out p) in
      let returned : SameTold (change put) back =
        SameTold-if queued (same_tasks (enqueue_task-tasks (change put) p (flags' put)))
          (SameTold-refl (change put)) in
      SameTold-Told
        (SameTold-trans returned (
          SameTold-trans (SameTold-resume running back p)
            (SameTold-check_class_changed _ p (s.tasks p).sched_class (s.tasks p).prio)))
        p policy b (tells put (left.reset p))

  set_params-Told :
      (s : State K) (p : ℕ) (attr : Attr) (prio : ℤ) (b : Bool)
      → (attr.policy == setparam_policy) ≡ false
      → test_bits attr.flags keep_params_flag ≡ false
      → (s.tasks p).sched_reset_on_fork ≡ b
      → Told (set_params s p attr prio) p attr.policy b
  unfolding set_params setscheduler_params write_params setscheduler_prio set_load_weight set_load
      put_task write
  set_params-Told s p attr prio b given change e =
      rw change (ground (arith, given), ground (arith, e))

  pub change_scheduler-Told :
      (s : State K) (p : ℕ) (attr : Attr) (b pi : Bool)
      → (attr.policy == setparam_policy) ≡ false
      → test_bits attr.flags keep_params_flag ≡ false
      → Told (change_scheduler s p attr.policy attr b pi) p attr.policy b
  unfolding change_scheduler requeue set_reset_on_fork put_task write
  change_scheduler-Told s p attr b pi given change =
      let s' = set_reset_on_fork s p b in
      let normal = priority_of K attr.policy attr.priority attr.nice in
      let prio = if pi then rt_effective_prio s' p normal else normal in
      let flags : ℕ = if pi && eqb_ℤ prio (s.tasks p).prio then 0x0a else 0x0e in
      requeue_around-Told s' p flags
        (λ u.
          if ltb_ℤ (s'.tasks p).prio ((set_params u p attr prio).tasks p).prio
          then bit_or flags 0x10
          else flags)
        (λ u. set_params u p attr prio) attr.policy b
        (λ u e. set_params-Told u p attr prio b given change (e ∙ ground arith))
