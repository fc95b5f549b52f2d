-- ===== src/Core/Obeyed.antt =====
-- A request that `__sched_setscheduler` of kernel/sched/core.c grants is carried out: the task has the
-- policy and SCHED_RESET_ON_FORK that were asked for.
use lottery_scheduler.Base.{
  ℕ, ◌≡◌, refl, Bool, true, false, Option, none, some, arith, ◌||◌, ◌==◌, if◌then◌else◌,
}
use lottery_scheduler.Task.{dl_policy, test_bits, write}
use lottery_scheduler.Machine.{Kernel, Attr, Errno, State, put_task, with_ext}
use lottery_scheduler.Core.Clock.{update_rq_clock}
use lottery_scheduler.Core.Setscheduler.Request.{
  Outcome, refuse, pass, check_request, negative32, keep_params_flag, reset_on_fork_flag,
  setparam_policy,
}
use lottery_scheduler.Core.Setscheduler.Change.{
  changes_nothing, is_stop, set_reset_on_fork, change_scheduler, setscheduler_locked,
}
use lottery_scheduler.Core.Setscheduler.Calls.{sched_setscheduler_attr}
use lottery_scheduler.Core.OnlyLottery.{requested-policy, requested-reset}
use lottery_scheduler.Core.Told.{Told, change_scheduler-Told}

module _ {K : Kernel} where
  -- If the answer is 0, the task is as it was asked for.
  abbrev pub Obeys : (p policy : ℕ) → Bool → Option Errno × State K → Type 0
  Obeys p policy b r = r.0 ≡ none → Told r.1 p policy b

  Obeys-if :
      (c : Bool) (p policy : ℕ) (b : Bool) (x y : Option Errno × State K)
      → (c ≡ true → Obeys p policy b x)
      → (c ≡ false → Obeys p policy b y)
      → Obeys p policy b (if c then x else y)
  Obeys-if true p policy b x y h k = h refl
  Obeys-if false p policy b x y h k = k refl

  unchanged-Told :
      (s : State K) (p policy : ℕ) (attr : Attr) (b : Bool)
      → changes_nothing s p policy attr ≡ true
      → Told (set_reset_on_fork s p b) p policy b
  unfolding changes_nothing set_reset_on_fork put_task write
  unchanged-Told s p policy attr b h = (ground (arith, h), ground arith)

  locked-Obeys :
      (s : State K) (p : ℕ) (attr : Attr) (b pi : Bool)
      → (attr.policy == setparam_policy) ≡ false
      → test_bits attr.flags keep_params_flag ≡ false
      → Obeys p attr.policy b (setscheduler_locked s p attr.policy attr b pi)
  unfolding setscheduler_locked
  locked-Obeys s p attr b pi given change =
      let policy = attr.policy in
      let (overflow, e) = K.sched_dl_overflow p policy attr s.ext in
      let none_changed : Option Errno × State K = (none, set_reset_on_fork s p b) in
      let full : Option Errno × State K = (some Errno.ebusy, with_ext s e) in
      let fits : Option Errno × State K =
        (none, change_scheduler (with_ext s e) p policy attr b pi) in
      let plain : Option Errno × State K = (none, change_scheduler s p policy attr b pi) in
      let deadline = dl_policy policy || K.dl_prio (s.tasks p).prio in
      let changed = if deadline then (if overflow then full else fits) else plain in
      Obeys-if (is_stop s p) p policy b (some Errno.einval, s)
        (if changes_nothing s p policy attr then none_changed else changed) (λ _ h. cc)
        (λ _.
          Obeys-if (changes_nothing s p policy attr) p policy b none_changed changed
            (λ same _. unchanged-Told s p policy attr b same)
            (λ _.
              Obeys-if deadline p policy b (if overflow then full else fits) plain
                (λ _.
                  Obeys-if overflow p policy b full fits (λ _ h. cc)
                    (λ _ _. change_scheduler-Told (with_ext s e) p attr b pi given change))
                (λ _ _. change_scheduler-Told s p attr b pi given change)))

  -- For a policy that is not negative, with the parameters not kept.
  pub sched_setscheduler_attr-Obeys :
      (s : State K) (p : ℕ) (attr : Attr) (user pi : Bool)
      → negative32 attr.policy ≡ false
      → test_bits attr.flags keep_params_flag ≡ false
      → Obeys p attr.policy
          (test_bits attr.flags reset_on_fork_flag)
          (sched_setscheduler_attr s p attr user pi)
  unfolding sched_setscheduler_attr
  sched_setscheduler_attr-Obeys s p attr user pi given change =
      by_answer (check_request s p attr user)
        (λ r h. (requested-policy s p attr user r given h, requested-reset s p attr user r given h))
    where
      b : Bool
      b = test_bits attr.flags reset_on_fork_flag

      by_answer :
          (o : Outcome (ℕ × Bool))
          → ((r : ℕ × Bool) → o ≡ pass r → (r.0 ≡ attr.policy) × (r.1 ≡ b))
          → Obeys p attr.policy b (elim o as (λ _. Option Errno × State K) [
            | refuse e ↦ (some e, s)
            | pass r ↦ setscheduler_locked (update_rq_clock s) p r.0 attr r.1 pi
          ])
      by_answer (refuse e) asked = λ h. cc
      by_answer (pass (policy, reset)) asked =
          let (e, f) = asked (policy, reset) refl in
          rw (e, f) (locked-Obeys (update_rq_clock s) p attr b pi (ground (arith, given)) change)
