-- ===== src/Core/PolicyChange.antt =====
-- The requeue of a task under another policy, in `__sched_setscheduler` of kernel/sched/core.c, keeps
-- the invariant of the core.
use Prim.Native.Nat.{bit_or}
use lottery_scheduler.Base.{
  ltb_ℤ, ℕ, ◌≡◌, refl, ap, ◌∙◌, Bool, true, arith, ◌==◌, Bool-cases, inl, inr, if◌then◌else◌, ℤ,
}
use lottery_scheduler.Task.{SchedClass, ltr_policy, sched_lottery, task_on_rq_queued, test_bits}
use lottery_scheduler.Task.{write}
use lottery_scheduler.Machine.{Kernel, Attr, State, put_task}
use lottery_scheduler.Core.Hooks.{is_lottery}
use lottery_scheduler.Core.Queue.{enqueue_task, dequeue_task, check_class_changed}
use lottery_scheduler.Core.Pick.{put_prev_task, set_next_task}
use lottery_scheduler.Core.Prio.{setscheduler_prio, class_of}
use lottery_scheduler.Core.Setscheduler.Request.{setparam_policy, keep_params_flag}
use lottery_scheduler.Core.Setscheduler.Change.{
  write_params, setscheduler_params, set_reset_on_fork, set_params, requeue, change_scheduler,
}
use lottery_scheduler.Core.Frame.{
  Frame, Frame-refl, Frame-if, Frame-set_load_weight, Frame-put_task, Frame-put_prev_task,
  Frame-set_next_task,
}
use lottery_scheduler.Core.Members.{dequeue_task-tasks, enqueue_task-tasks}
use lottery_scheduler.Core.Rewrites.{
  Rewrites, Rewrites-IsOut, Rewrites-IsSystem, Frame-check_class_changed,
}
use lottery_scheduler.Core.System.{IsSystem, Frame-IsSystem}
use lottery_scheduler.Core.Requeue.{Frame-IsOut, dequeue_task-IsOut, enqueue_task-IsSystem}

module _ {K : Kernel} where
  -- The policy that the request leaves the task with is SCHED_LOTTERY.
  abbrev pub Grants : State K → ℕ → Attr → Type 0
  Grants s p attr =
      (if attr.policy == setparam_policy then (s.tasks p).policy else attr.policy) ≡ sched_lottery

  set_params-Rewrites :
      (s : State K) (p : ℕ) (attr : Attr) (prio : ℤ)
      → Grants s p attr
      → is_lottery (s.tasks p).sched_class ≡ ltr_policy (s.tasks p).policy
      → Rewrites p s (set_params s p attr prio)
  unfolding set_params setscheduler_params write_params setscheduler_prio class_of put_task write
  set_params-Rewrites s p attr prio granted before =
      let f = Frame-set_load_weight (write_params s p attr) p true in
      elim (Bool-cases (test_bits attr.flags keep_params_flag)) [
        | inl keep ↦ rw keep (record {
          ltr = refl;
          links = refl;
          others = λ q other. ground arith;
          tickets = refl;
          on_rq = refl;
          by_policy = before;
          kept = λ own. own;
        })
        | inr change ↦ rw change (record {
          ltr = f.ltr;
          links = f.links;
          others = λ q other. ground (arith, f.tasks q);
          tickets = ground (arith, f.tasks p);
          on_rq = ground (arith, f.tasks p);
          by_policy = ground arith;
          kept = λ own. ground (arith, f.tasks p);
        })
      ]

  pub Frame-running :
      (b : Bool) (s : State K) (p : ℕ) → Frame s (if b then put_prev_task s p else s)
  Frame-running b s p = Frame-if b (Frame-put_prev_task s p) (Frame-refl s)

  pub Frame-resume : (b : Bool) (s : State K) (p : ℕ) → Frame s (if b then set_next_task s p else s)
  Frame-resume b s p = Frame-if b (Frame-set_next_task s p) (Frame-refl s)

  pub Grants-same :
      (s t : State K) (p : ℕ) (attr : Attr)
      → (t.tasks p).policy ≡ (s.tasks p).policy
      → Grants s p attr
      → Grants t p attr
  Grants-same s t p attr e g = rw e g

  -- The end of the requeue: the task gets the CPU back and its class is told.
  resumed-IsSystem :
      {s : State K}
      → IsSystem s
      → (p : ℕ) (running : Bool) (c : SchedClass) (oldprio : ℤ)
      → (is_lottery c ≡ true → is_lottery (s.tasks p).sched_class ≡ true)
      → IsSystem (check_class_changed (if running then set_next_task s p else s) p c oldprio)
  resumed-IsSystem {s} i p running c oldprio kept =
      let f = Frame-resume running s p in
      Frame-IsSystem
        (Frame-check_class_changed (if running then set_next_task s p else s) p c oldprio
          (λ own. ap is_lottery ((f.tasks p).sched_class) ∙ kept own))
        (Frame-IsSystem f i)

  -- A requeue around a change of the task; `flags'` are those of `enqueue_task`.
  abbrev pub requeue_around :
      State K → (p flags : ℕ) → (State K → ℕ) → (State K → State K) → State K
  requeue_around s p flags flags' change =
      let queued = (s.tasks p).on_rq == task_on_rq_queued in
      let running = p == s.rq.curr in
      let out = if queued then dequeue_task s p flags else s in
      let put = if running then put_prev_task out p else out in
      let changed = change put in
      let back = if queued then enqueue_task changed p (flags' put) else changed in
      let next = if running then set_next_task back p else back in
      check_class_changed next p (s.tasks p).sched_class (s.tasks p).prio

  -- The change may give the task another policy and class, as long as it is a rewrite wherever the
  -- policy is still the old one.
  pub requeue_around-IsSystem :
      {s : State K}
      → IsSystem s
      → (p flags : ℕ) (flags' : State K → ℕ) (change : State K → State K)
      → ((u : State K)
          → (u.tasks p).policy ≡ (s.tasks p).policy
          → is_lottery (u.tasks p).sched_class ≡ ltr_policy (u.tasks p).policy
          → Rewrites p u (change u))
      → IsSystem (requeue_around s p flags flags' change)
  requeue_around-IsSystem {s} i p flags flags' change rewrites =
      let c = (s.tasks p).sched_class in
      let running = p == s.rq.curr in
      elim (Bool-cases ((s.tasks p).on_rq == task_on_rq_queued)) [
        | inl on ↦
            let out = dequeue_task s p flags in
            let put = if running then put_prev_task out p else out in
            let f = Frame-running running out p in
            let same = dequeue_task-tasks s p flags in
            let o = Frame-IsOut f (dequeue_task-IsOut p flags i on) in
            let r =
              rewrites put ((f.tasks p).policy ∙ ap (λ m. (m p).policy) same) (o.by_policy p) in
            let class_put : (put.tasks p).sched_class ≡ c =
              (f.tasks p).sched_class ∙ ap (λ m. (m p).sched_class) same in
            rw on (
              resumed-IsSystem (enqueue_task-IsSystem p _ (Rewrites-IsOut r o)) p running c
                (s.tasks p).prio
                (λ own.
                  ap (λ m. is_lottery (m p).sched_class) (enqueue_task-tasks _ p _)
                  ∙ r.kept (ap is_lottery class_put ∙ own)))
        | inr off ↦
            let put = if running then put_prev_task s p else s in
            let f = Frame-running running s p in
            let r = rewrites put ((f.tasks p).policy) ((Frame-IsSystem f i).by_policy p) in
            rw off (
              resumed-IsSystem
                (Rewrites-IsSystem r (ground (arith, f.tasks p)) (Frame-IsSystem f i)) p running c
                (s.tasks p).prio (λ own. r.kept (ap is_lottery (f.tasks p).sched_class ∙ own)))
      ]

  requeue-IsSystem :
      {s : State K}
      → IsSystem s
      → (p flags : ℕ) (attr : Attr) (prio : ℤ) → Grants s p attr
      → IsSystem (requeue s p flags attr prio)
  unfolding requeue
  requeue-IsSystem {s} i p flags attr prio granted =
      requeue_around-IsSystem i p flags
        (λ u.
          if ltb_ℤ (s.tasks p).prio ((set_params u p attr prio).tasks p).prio
          then bit_or flags 0x10
          else flags)
        (λ u. set_params u p attr prio)
        (λ u same. set_params-Rewrites u p attr prio (Grants-same s u p attr same granted))

  pub Frame-set_reset_on_fork : (s : State K) (p : ℕ) (b : Bool) → Frame s (set_reset_on_fork s p b)
  unfolding set_reset_on_fork
  Frame-set_reset_on_fork s p b = Frame-put_task s p _ (ground arith)

  pub change_scheduler-IsSystem :
      {s : State K}
      → IsSystem s
      → (p policy : ℕ) (attr : Attr) (reset pi : Bool) → Grants s p attr
      → IsSystem (change_scheduler s p policy attr reset pi)
  unfolding change_scheduler
  change_scheduler-IsSystem {s} i p policy attr reset pi granted =
      let f = Frame-set_reset_on_fork s p reset in
      requeue-IsSystem (Frame-IsSystem f i) p _ attr _
        (Grants-same s (set_reset_on_fork s p reset) p attr (f.tasks p).policy granted)
