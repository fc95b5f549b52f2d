-- ===== src/Core/Spared.antt =====
-- `Stays` for another policy and for the set-up of a child in kernel/sched/core.c.
use lottery_scheduler.Base.{
  ◌≡◌, ℕ, ◌≢◌, refl, Bool, true, false, Option, none, some, arith, ◌==◌, ◌||◌, ◌&&◌, if◌then◌else◌,
  Bool-cases, inl, inr, ℤ, ltb_ℤ, eqb_ℤ,
}
use Prim.Native.Nat.{bit_or}
use lottery_scheduler.Task.{
  Task, task_new, SchedClass, dl_policy, task_on_rq_queued, test_bits, write,
}
use lottery_scheduler.Machine.{Kernel, Attr, Errno, State, put_task, with_ext}
use lottery_scheduler.Core.Clock.{update_rq_clock}
use lottery_scheduler.Core.Prio.{rt_effective_prio, priority_of}
use lottery_scheduler.Core.Setscheduler.Request.{
  Outcome, pass, refuse, check_request, keep_params_flag,
}
use lottery_scheduler.Core.Setscheduler.Change.{
  write_params, setscheduler_params, set_params, requeue, change_scheduler, setscheduler_locked,
  is_stop, changes_nothing, set_reset_on_fork,
}
use lottery_scheduler.Core.Setscheduler.Calls.{sched_setscheduler_attr}
use lottery_scheduler.Core.Fork.{
  reset_on_fork, dup_task, sched_fork, sched_fork_setup, fork_params, fork_class, set_fork_class,
}
use lottery_scheduler.Core.Frame.{Frame-set_load_weight, Frame-ext, Frame-update_rq_clock}
use lottery_scheduler.Core.PolicyChange.{Frame-set_reset_on_fork}
use lottery_scheduler.Core.Stays.{
  Stays, Stays-refl, Stays-trans, Stays-if, Frame-Stays, requeue_around-Stays,
}
use lottery_scheduler.Core.Kept.{setscheduler_prio-Stays}

module _ {K : Kernel} where
  Stays-pair :
      (b : Bool) {s : State K} (x y : Option Errno × State K)
      → Stays s x.1
      → Stays s y.1
      → Stays s (if b then x else y).1
  Stays-pair true x y h k = h
  Stays-pair false x y h k = k

  setscheduler_params-Stays :
      (s : State K) (p : ℕ) (attr : Attr) → Stays s (setscheduler_params s p attr)
  unfolding setscheduler_params write_params put_task write
  setscheduler_params-Stays s p attr =
      Stays-trans {t = write_params s p attr}
        (record { curr = refl; idle = refl; queued = λ q h. ground arith })
        (Frame-Stays (Frame-set_load_weight (write_params s p attr) p true))

  set_params-Stays :
      (s : State K) (p : ℕ) (attr : Attr) (prio : ℤ) → Stays s (set_params s p attr prio)
  unfolding set_params
  set_params-Stays s p attr prio =
      Stays-if (test_bits attr.flags keep_params_flag) (Stays-refl s)
        (Stays-trans (setscheduler_params-Stays s p attr) (setscheduler_prio-Stays _ p prio))

  change_scheduler-Stays :
      (s : State K) (p policy : ℕ) (attr : Attr) (reset pi : Bool)
      → Stays s (change_scheduler s p policy attr reset pi)
  unfolding change_scheduler requeue
  change_scheduler-Stays s p policy attr reset pi =
      let s' = set_reset_on_fork s p reset in
      let normal = priority_of K policy attr.priority attr.nice in
      let prio = if pi then rt_effective_prio s' p normal else normal in
      let flags : ℕ = if pi && eqb_ℤ prio (s.tasks p).prio then 0x0a else 0x0e in
      Stays-trans (Frame-Stays (Frame-set_reset_on_fork s p reset)) (
        requeue_around-Stays s' p flags
          (λ u.
            if ltb_ℤ (s'.tasks p).prio ((set_params u p attr prio).tasks p).prio
            then bit_or flags 0x10
            else flags)
          (λ u. set_params u p attr prio) (λ u. set_params-Stays u p attr prio))

  locked-Stays :
      (s : State K) (p policy : ℕ) (attr : Attr) (reset pi : Bool)
      → Stays s (setscheduler_locked s p policy attr reset pi).1
  unfolding setscheduler_locked
  locked-Stays s p policy attr reset pi =
      let (overflow, e) = K.sched_dl_overflow p policy attr s.ext in
      let none_changed : Option Errno × State K = (none, set_reset_on_fork s p reset) in
      let full : Option Errno × State K = (some Errno.ebusy, with_ext s e) in
      let fits : Option Errno × State K =
        (none, change_scheduler (with_ext s e) p policy attr reset pi) in
      let plain : Option Errno × State K = (none, change_scheduler s p policy attr reset pi) in
      let deadline = dl_policy policy || K.dl_prio (s.tasks p).prio in
      let changed = if deadline then (if overflow then full else fits) else plain in
      let j = Frame-Stays (Frame-ext s e) in
      Stays-pair (is_stop s p) (some Errno.einval, s)
        (if changes_nothing s p policy attr then none_changed else changed) (Stays-refl s)
        (Stays-pair (changes_nothing s p policy attr) none_changed changed
          (Frame-Stays (Frame-set_reset_on_fork s p reset))
          (Stays-pair deadline (if overflow then full else fits) plain
            (Stays-pair overflow full fits j
              (Stays-trans j (change_scheduler-Stays (with_ext s e) p policy attr reset pi)))
            (change_scheduler-Stays s p policy attr reset pi)))

  pub sched_setscheduler_attr-Stays :
      (s : State K) (p : ℕ) (attr : Attr) (user pi : Bool)
      → Stays s (sched_setscheduler_attr s p attr user pi).1
  unfolding sched_setscheduler_attr
  sched_setscheduler_attr-Stays s p attr user pi = by_answer (check_request s p attr user)
    where
      by_answer :
          (o : Outcome (ℕ × Bool))
          → Stays s
              (elim o as (λ _. Option Errno × State K) [
                | refuse e ↦ (some e, s)
                | pass r ↦ setscheduler_locked (update_rq_clock s) p r.0 attr r.1 pi
              ]).1
      by_answer (refuse e) = Stays-refl s
      by_answer (pass r) =
          Stays-trans (Frame-Stays (Frame-update_rq_clock s))
            (locked-Stays (update_rq_clock s) p r.0 attr r.1 pi)

  set_fork_class-Stays :
      (s : State K) (p : ℕ) (o : Option SchedClass) → Stays s (set_fork_class s p o).1
  unfolding set_fork_class put_task write
  set_fork_class-Stays s p none = Stays-refl s
  set_fork_class-Stays s p (some c) = record {
    curr = refl;
    idle = refl;
    queued = λ q h. ground arith;
  }

  put_off-Stays :
      (s : State K) (p : ℕ) (t : Task)
      → (s.tasks p).on_rq ≢ task_on_rq_queued
      → Stays s (put_task s p t)
  unfolding put_task write
  put_off-Stays s p t off = record {
    curr = refl;
    idle = refl;
    queued = λ q h. elim (Bool-cases (q == p)) [
      | inl here ↦ ground (arith, off)
      | inr other ↦ ground arith
    ];
  }

  fork_params-Stays :
      (s : State K) (p : ℕ) → (s.tasks p).on_rq ≢ task_on_rq_queued → Stays s (fork_params s p)
  unfolding fork_params
  fork_params-Stays s p off =
      let t = record (s.tasks p) { state = task_new; prio = (s.tasks s.rq.curr).normal_prio } in
      Stays-if (s.tasks p).sched_reset_on_fork
        (Stays-trans (put_off-Stays s p (reset_on_fork K t) off)
          (Frame-Stays (Frame-set_load_weight (put_task s p (reset_on_fork K t)) p false)))
        (put_off-Stays s p t off)

  fork_setup-Stays :
      (s : State K) (p : ℕ)
      → (s.tasks p).on_rq ≢ task_on_rq_queued
      → Stays s (sched_fork_setup (dup_task s p) p)
        × (((sched_fork_setup (dup_task s p) p).tasks p).on_rq ≡ 0)
  unfolding dup_task sched_fork_setup put_task write
  fork_setup-Stays s p off = (
    record {
      curr = refl;
      idle = refl;
      queued = λ q h. elim (Bool-cases (q == p)) [
        | inl here ↦ ground (arith, off)
        | inr other ↦ ground arith
      ];
    },
    ground arith,
  )

  -- A child is made of a task that is not queued.
  pub fork-Stays :
      (s : State K) (p : ℕ)
      → (s.tasks p).on_rq ≢ task_on_rq_queued
      → Stays s (sched_fork (dup_task s p) p).1
  unfolding sched_fork
  fork-Stays s p off =
      let (f, zero_on_rq) = fork_setup-Stays s p off in
      let u = sched_fork_setup (dup_task s p) p in
      Stays-trans f (
        Stays-trans (fork_params-Stays u p (λ e. omega (arith, e, zero_on_rq)))
          (set_fork_class-Stays _ p (fork_class K ((fork_params u p).tasks p))))
