-- ===== src/Core/Stays.antt =====
-- What every operation of kernel/sched/core.c but `__schedule` leaves to the tasks on the CPU: the
-- running task, the idle task, and that a queued task stays queued.
use lottery_scheduler.Base.{
  ℕ, ◌≡◌, refl, ap, ◌∙◌, Bool, true, false, Option, none, some, arith, ◌==◌, if◌then◌else◌,
  Bool-cases, inl, inr, ℤ,
}
use lottery_scheduler.Task.{SchedClass, Tasks, class_eq, task_on_rq_queued}
use lottery_scheduler.Machine.{Kernel, State}
use lottery_scheduler.Lottery.Hooks.{
  enqueue_task_lottery, dequeue_task_lottery, switched_from_lottery,
}
use lottery_scheduler.Core.Hooks.{is_lottery, after_hook, class_switched_from}
use lottery_scheduler.Core.Queue.{
  enqueue_task, dequeue_task, set_on_rq, activate_task, check_class_changed,
}
use lottery_scheduler.Core.Frame.{
  Frame, Frame-refl, Frame-if, Frame-after_hook, Frame-prio_changed, Frame-switched_to,
}
use lottery_scheduler.Core.Pick.{put_prev_task}
use lottery_scheduler.Core.Members.{enqueue_task-if, dequeue_task-if}
use lottery_scheduler.Core.PolicyChange.{requeue_around, Frame-running, Frame-resume}

module _ {K : Kernel} where
  pub record Stays (s t : State K) : Type 0 where
    pub curr : t.rq.curr ≡ s.rq.curr
    pub idle : t.rq.idle ≡ s.rq.idle
    pub queued :
        (q : ℕ) → (s.tasks q).on_rq ≡ task_on_rq_queued → (t.tasks q).on_rq ≡ task_on_rq_queued

  pub Stays-refl : (s : State K) → Stays s s
  Stays-refl s = record { curr = refl; idle = refl; queued = λ q h. h }

  pub Stays-trans : {s t u : State K} → Stays s t → Stays t u → Stays s u
  Stays-trans f g = record {
    curr = g.curr ∙ f.curr;
    idle = g.idle ∙ f.idle;
    queued = λ q h. g.queued q (f.queued q h);
  }

  pub Stays-if : (b : Bool) {s t u : State K} → Stays s t → Stays s u → Stays s (if b then t else u)
  Stays-if true f g = f
  Stays-if false f g = g

  pub Frame-Stays : {s t : State K} → Frame s t → Stays s t
  Frame-Stays f = record { curr = f.curr; idle = f.idle; queued = λ q h. (f.tasks q).on_rq ∙ h }

  -- A step that writes to no task.
  same_tasks :
      {s t : State K}
      → t.rq.curr ≡ s.rq.curr
      → t.rq.idle ≡ s.rq.idle
      → t.tasks ≡ s.tasks
      → Stays s t
  same_tasks c i e = record { curr = c; idle = i; queued = λ q h. ap (λ m. (m q).on_rq) e ∙ h }

  pub enqueue_task-Stays : (s : State K) (p flags : ℕ) → Stays s (enqueue_task s p flags)
  unfolding enqueue_task_lottery
  enqueue_task-Stays s p flags =
      let (u, same, e) = enqueue_task-if s p flags in
      elim (Bool-cases (is_lottery (s.tasks p).sched_class)) [
        | inl own ↦ rw (e, own) (same_tasks same.curr same.idle same.tasks)
        | inr other ↦ rw (e, other) (same_tasks same.curr same.idle same.tasks)
      ]

  pub dequeue_task-Stays : (s : State K) (p flags : ℕ) → Stays s (dequeue_task s p flags)
  unfolding dequeue_task_lottery
  dequeue_task-Stays s p flags =
      let (u, same, e) = dequeue_task-if s p flags in
      elim (Bool-cases (is_lottery (s.tasks p).sched_class)) [
        | inl own ↦ rw (e, own) (same_tasks same.curr same.idle same.tasks)
        | inr other ↦ rw (e, other) (same_tasks same.curr same.idle same.tasks)
      ]

  pub activate_task-Stays : (s : State K) (p flags : ℕ) → Stays s (activate_task s p flags)
  unfolding activate_task set_on_rq
  activate_task-Stays s p flags =
      Stays-trans (enqueue_task-Stays s p _)
        (record { curr = refl; idle = refl; queued = λ q h. ground arith })

  switched_lottery-Stays : (s : State K) (p : ℕ) → Stays s (switched_from_lottery s p)
  unfolding switched_from_lottery dequeue_task_lottery
  switched_lottery-Stays s p = record {
    curr = ground arith;
    idle = ground arith;
    queued = λ q h. ground arith;
  }

  switched_from-Stays : (s : State K) (c : SchedClass) (p : ℕ) → Stays s (class_switched_from s c p)
  unfolding class_switched_from
  switched_from-Stays s c p =
      Stays-if (is_lottery c) (switched_lottery-Stays s p) (by_hook (K.ops c).switched_from)
    where
      by_hook :
          (o : Option (Tasks → ℕ → K.Ext → Bool × K.Ext))
          → Stays s (elim o as (λ _. State K) [
            | none ↦ s
            | some hook ↦ after_hook s (hook s.tasks p s.ext)
          ])
      by_hook none = Stays-refl s
      by_hook (some hook) = Frame-Stays (Frame-after_hook s _)

  check_class_changed-Stays :
      (s : State K) (p : ℕ) (c : SchedClass) (oldprio : ℤ)
      → Stays s (check_class_changed s p c oldprio)
  unfolding check_class_changed
  check_class_changed-Stays s p c oldprio =
      let c' = (s.tasks p).sched_class in
      elim (Bool-cases (class_eq c c')) [
        | inl same ↦ rw same (Frame-Stays (Frame-if _ (Frame-prio_changed s c' p) (Frame-refl s)))
        | inr changed ↦
            rw changed
              (Stays-trans (switched_from-Stays s c p) (Frame-Stays (Frame-switched_to _ c' p)))
      ]

  pub requeue_around-Stays :
      (s : State K) (p flags : ℕ) (flags' : State K → ℕ) (change : State K → State K)
      → ((u : State K) → Stays u (change u))
      → Stays s (requeue_around s p flags flags' change)
  requeue_around-Stays s p flags flags' change stays =
      let queued = (s.tasks p).on_rq == task_on_rq_queued in
      let running = p == s.rq.curr in
      let out = if queued then dequeue_task s p flags else s in
      let put = if running then put_prev_task out p else out in
      let back = if queued then enqueue_task (change put) p (flags' put) else change put in
      let left : Stays s put =
        Stays-trans (Stays-if queued (dequeue_task-Stays s p flags) (Stays-refl s))
          (Frame-Stays (Frame-running running out p)) in
      let returned : Stays (change put) back =
        Stays-if queued (enqueue_task-Stays (change put) p (flags' put))
          (Stays-refl (change put)) in
      Stays-trans left (
        Stays-trans (stays put) (
          Stays-trans returned (
            Stays-trans (Frame-Stays (Frame-resume running back p))
              (check_class_changed-Stays _ p (s.tasks p).sched_class (s.tasks p).prio))))
