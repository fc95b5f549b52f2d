-- ===== src/Core/Granted.antt =====
-- `__sched_setscheduler` of kernel/sched/core.c keeps the invariant of the core.
use lottery_scheduler.Base.{
  ℕ, ◌≡◌, refl, sym, ◌∙◌, Bool, true, false, Option, some, none, arith, ◌||◌, inl, inr, ◌⊎◌,
  if◌then◌else◌,
}
use lottery_scheduler.Task.{dl_policy}
use lottery_scheduler.Core.Frame.{Frame-update_rq_clock}
use lottery_scheduler.Core.Setscheduler.Change.{setscheduler_locked, changes_nothing, is_stop}
use lottery_scheduler.Core.Setscheduler.Request.{Outcome, pass, refuse, check_request}
use lottery_scheduler.Core.Setscheduler.Calls.{sched_setscheduler_attr}
use lottery_scheduler.Core.OnlyLottery.{check_request-lottery, requested-policy, requested-present}
use lottery_scheduler.Machine.{Kernel, Attr, Errno, State, with_ext}
use lottery_scheduler.Core.Clock.{update_rq_clock}
use lottery_scheduler.Core.Setscheduler.Request.{setparam_policy, negative32}
use lottery_scheduler.Core.Setscheduler.Change.{set_reset_on_fork, change_scheduler}
use lottery_scheduler.Core.Frame.{Frame-ext}
use lottery_scheduler.Core.System.{IsSystem, Frame-IsSystem}
use lottery_scheduler.Core.PolicyChange.{
  Grants, Grants-same, Frame-set_reset_on_fork, change_scheduler-IsSystem,
}

module _ {K : Kernel} where
  IsSystem-if :
      (b : Bool) (x y : Option Errno × State K)
      → IsSystem x.1
      → IsSystem y.1
      → IsSystem (if b then x else y).1
  IsSystem-if true x y i j = i
  IsSystem-if false x y i j = j

  locked-IsSystem :
      {s : State K}
      → IsSystem s
      → (p policy : ℕ) (attr : Attr) (reset pi : Bool) → Grants s p attr
      → IsSystem (setscheduler_locked s p policy attr reset pi).1
  unfolding setscheduler_locked
  locked-IsSystem {s} i p policy attr reset pi granted =
      let (overflow, e) = K.sched_dl_overflow p policy attr s.ext in
      let j = Frame-IsSystem (Frame-ext s e) i in
      let none_changed : Option Errno × State K = (none, set_reset_on_fork s p reset) in
      let full : Option Errno × State K = (some Errno.ebusy, with_ext s e) in
      let fits : Option Errno × State K =
        (none, change_scheduler (with_ext s e) p policy attr reset pi) in
      let plain : Option Errno × State K = (none, change_scheduler s p policy attr reset pi) in
      let deadline = dl_policy policy || K.dl_prio (s.tasks p).prio in
      let changed = if deadline then (if overflow then full else fits) else plain in
      IsSystem-if (is_stop s p) (some Errno.einval, s)
        (if changes_nothing s p policy attr then none_changed else changed) i
        (IsSystem-if (changes_nothing s p policy attr) none_changed changed
          (Frame-IsSystem (Frame-set_reset_on_fork s p reset) i)
          (IsSystem-if deadline (if overflow then full else fits) plain
            (IsSystem-if overflow full fits j
              (change_scheduler-IsSystem j p policy attr reset pi granted))
            (change_scheduler-IsSystem i p policy attr reset pi granted)))

  -- A request that passes the checks leaves the task with SCHED_LOTTERY.
  request-Grants :
      (s : State K) (p : ℕ) (attr : Attr) (user : Bool) (r : ℕ × Bool)
      → (negative32 attr.policy ≡ false) ⊎ (attr.policy ≡ setparam_policy)
      → check_request s p attr user ≡ pass r
      → Grants s p attr
  request-Grants s p attr user r (inl given) h =
      let is_ltr =
        sym (requested-policy s p attr user r given h)
        ∙ (check_request-lottery s p attr user r h).0 in
      ground (arith, is_ltr)
  request-Grants s p attr user r (inr present) h =
      let own =
        sym (requested-present s p attr user r (ground arith) h)
        ∙ (check_request-lottery s p attr user r h).0 in
      ground (arith, own)

  -- `__sched_setscheduler` keeps the invariant, whether it refuses the request, has nothing to
  -- change, or takes the task out of its queue and puts it back with another policy and class: for
  -- a policy that is not negative, or SETPARAM_POLICY.
  pub sched_setscheduler_attr-IsSystem :
      {s : State K}
      → IsSystem s
      → (p : ℕ) (attr : Attr) (user pi : Bool)
      → (negative32 attr.policy ≡ false) ⊎ (attr.policy ≡ setparam_policy)
      → IsSystem (sched_setscheduler_attr s p attr user pi).1
  unfolding sched_setscheduler_attr
  sched_setscheduler_attr-IsSystem {s} i p attr user pi asked =
      by_answer (check_request s p attr user) (λ r. request-Grants s p attr user r asked)
    where
      by_answer :
          (o : Outcome (ℕ × Bool))
          → ((r : ℕ × Bool) → o ≡ pass r → Grants s p attr)
          → IsSystem
              (elim o as (λ _. Option Errno × State K) [
                | refuse e ↦ (some e, s)
                | pass r ↦ setscheduler_locked (update_rq_clock s) p r.0 attr r.1 pi
              ]).1
      by_answer (refuse e) grants = i
      by_answer (pass r) grants =
          let f = Frame-update_rq_clock s in
          locked-IsSystem (Frame-IsSystem f i) p r.0 attr r.1 pi
            (Grants-same s (update_rq_clock s) p attr (f.tasks p).policy (grants r refl))
