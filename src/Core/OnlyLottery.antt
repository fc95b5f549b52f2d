-- ===== src/Core/OnlyLottery.antt =====
-- Which requests `__sched_setscheduler` of kernel/sched/core.c grants.
use lottery_scheduler.Base.{
  ℕ, ◌≡◌, ◌≢◌, refl, ap, Bool, true, false, Option, some, arith, ◌==◌, ltb, ◌/◌, ◌-◌, sym, ◌∙◌,
  ◌&&◌, ◌||◌, not, ◌^◌, ◌+◌,
}
use mathlib.Core.Bool.{xor}
use lottery_scheduler.Task.{
  ltr_policy, rt_policy, dl_policy, sched_lottery, sched_fifo, valid_policy, test_bits,
}
use lottery_scheduler.Machine.{Kernel, Attr, Errno, einval, eopnotsupp, State}
use lottery_scheduler.Core.Setscheduler.Request.{
  Outcome, pass, refuse, ◌>>◌, refuse_if, requested, check_attr, check_unprivileged, check_request,
  when, answer, sugov_flag, all_flags, negative32, setparam_policy, sched_reset_on_fork_bit,
  reset_on_fork_flag, util_clamp_flag, >>=-eq-pass,
}
use lottery_scheduler.Core.Prio.{task_nice}
use lottery_scheduler.Core.Clock.{update_rq_clock}
use lottery_scheduler.Core.Setscheduler.Change.{setscheduler_locked}
use lottery_scheduler.Core.Setscheduler.Calls.{
  sched_setscheduler_attr, setscheduler_param, sched_setscheduler_nocheck, sched_set_fifo,
  sched_set_fifo_low,
}

-- A chain of five checks that succeeds passes the first and answers what stands at its end.
checks-eq-pass {ℓ} :
    {B : Type ℓ} (a c d e f : Outcome (Unit {0})) {b b' : B}
    → (a >> (c >> (d >> (e >> (f >> pass b))))) ≡ pass b'
    → (a ≡ pass tt) × (b ≡ b')
checks-eq-pass (pass _) (pass _) (pass _) (pass _) (pass _) h = (refl, cc)
checks-eq-pass (pass _) (pass _) (pass _) (pass _) (refuse _) h = cc
checks-eq-pass (pass _) (pass _) (pass _) (refuse _) f h = cc
checks-eq-pass (pass _) (pass _) (refuse _) e f h = cc
checks-eq-pass (pass _) (refuse _) d e f h = cc
checks-eq-pass (refuse _) c d e f h = cc

-- Three refusals that let a request pass.
last-eq-false :
    (a b c : Bool) (e : Errno)
    → (refuse_if a e >> (refuse_if b e >> refuse_if c e)) ≡ pass tt
    → c ≡ false
last-eq-false a b false e h = refl
last-eq-false true b true e h = cc
last-eq-false false true true e h = cc
last-eq-false false false true e h = cc

-- What follows a check that lets the request pass.
rest-eq-pass {ℓ} :
    {B : Type ℓ} (m : Outcome (Unit {0})) (rest : Outcome B) {b : B}
    → (m >> rest) ≡ pass b
    → rest ≡ pass b
rest-eq-pass (refuse e) rest h = cc
rest-eq-pass (pass _) rest h = h

fifo_other : sched_fifo ≢ sched_lottery
fifo_other h = omega arith

module _ {K : Kernel} where
  check_attr-lottery :
      (policy : ℕ) (attr : Attr) (s : State K)
      → check_attr policy attr s ≡ pass tt
      → (policy ≡ sched_lottery) × (attr.priority ≡ 0)
  unfolding check_attr xor
  check_attr-lottery policy attr s h =
      let passed =
        last-eq-false (test_bits attr.flags (2 ^ 64 - 1 - (all_flags + sugov_flag)))
          (ltb (K.max_rt_prio - 1) attr.priority)
          (dl_policy policy && not (K.checkparam_dl attr)
            || (xor (rt_policy policy) (not (attr.priority == 0)) || not (ltr_policy policy)))
          einval h in
      ground (arith, passed)

  -- A request that passes the checks is for the lottery policy, with priority 0, whatever the
  -- privileges of the caller.
  pub check_request-lottery :
      (s : State K) (p : ℕ) (attr : Attr) (user : Bool) (r : ℕ × Bool)
      → check_request s p attr user ≡ pass r
      → (r.0 ≡ sched_lottery) × (attr.priority ≡ 0)
  unfolding check_request
  check_request-lottery s p attr user r h =
      let ((policy, reset), _, h₁) = >>=-eq-pass (requested s p attr) _ h in
      let (attr_ok, e) =
        checks-eq-pass (check_attr policy attr s)
          (when (user && not (K.capable_nice s.ext)) (check_unprivileged s p policy reset attr))
          (refuse_if (user && test_bits attr.flags sugov_flag) einval)
          (when user (answer (K.security_task_setscheduler p s.ext)))
          (refuse_if (test_bits attr.flags util_clamp_flag) eopnotsupp) h₁ in
      let (is_ltr, zero_prio) = check_attr-lottery policy attr s attr_ok in
      (ap (λ q. q.0) (sym e) ∙ is_ltr, zero_prio)

  asked :
      (s : State K) (p : ℕ) (attr : Attr) {r : ℕ × Bool}
      → negative32 attr.policy ≡ false
      → requested s p attr ≡ pass r
      → r ≡ (attr.policy, test_bits attr.flags reset_on_fork_flag)
  unfolding requested
  asked s p attr {r} given h =
      let h₁ : (refuse_if (not (valid_policy attr.policy)) einval
            >> pass (attr.policy, test_bits attr.flags reset_on_fork_flag))
          ≡ pass r =
        rw given at h in
      let h₂ =
        rest-eq-pass (refuse_if (not (valid_policy attr.policy)) einval)
          (pass (attr.policy, test_bits attr.flags reset_on_fork_flag)) h₁ in
      ap (λ (o : Outcome (ℕ × Bool)). elim o [ refuse e ↦ r | pass q ↦ q ]) (sym h₂)

  -- What is granted is what was requested.
  pub granted-requested :
      (s : State K) (p : ℕ) (attr : Attr) (user : Bool) (r : ℕ × Bool)
      → check_request s p attr user ≡ pass r
      → requested s p attr ≡ pass r
  unfolding check_request
  granted-requested s p attr user r h =
      let ((policy, reset), asked, h₁) = >>=-eq-pass (requested s p attr) _ h in
      let (_, e) =
        checks-eq-pass (check_attr policy attr s)
          (when (user && not (K.capable_nice s.ext)) (check_unprivileged s p policy reset attr))
          (refuse_if (user && test_bits attr.flags sugov_flag) einval)
          (when user (answer (K.security_task_setscheduler p s.ext)))
          (refuse_if (test_bits attr.flags util_clamp_flag) eopnotsupp) h₁ in
      asked ∙ ap pass e

  -- With a policy given, it is that policy that is granted.
  pub requested-policy :
      (s : State K) (p : ℕ) (attr : Attr) (user : Bool) (r : ℕ × Bool)
      → negative32 attr.policy ≡ false
      → check_request s p attr user ≡ pass r
      → r.0 ≡ attr.policy
  requested-policy s p attr user r given h =
      ap (λ q. q.0) (asked s p attr given (granted-requested s p attr user r h))

  -- The same for SCHED_RESET_ON_FORK.
  pub requested-reset :
      (s : State K) (p : ℕ) (attr : Attr) (user : Bool) (r : ℕ × Bool)
      → negative32 attr.policy ≡ false
      → check_request s p attr user ≡ pass r
      → r.1 ≡ test_bits attr.flags reset_on_fork_flag
  requested-reset s p attr user r given h =
      ap (λ q. q.1) (asked s p attr given (granted-requested s p attr user r h))

  -- With SETPARAM_POLICY, it is the policy that the task has.
  pub requested-present :
      (s : State K) (p : ℕ) (attr : Attr) (user : Bool) (r : ℕ × Bool)
      → negative32 attr.policy ≡ true
      → check_request s p attr user ≡ pass r
      → r.0 ≡ (s.tasks p).policy
  unfolding requested
  requested-present s p attr user r present h =
      let t = s.tasks p in
      let e : pass (t.policy, t.sched_reset_on_fork) ≡ pass r =
        rw present at (granted-requested s p attr user r h) in
      ap (λ (o : Outcome (ℕ × Bool)). elim o [ refuse e ↦ t.policy | pass q ↦ q.0 ]) (sym e)

  -- Every request for another policy, given as a number that is not negative, fails and leaves the
  -- state as it was.
  pub sched_setscheduler_attr-other :
      (s : State K) (p : ℕ) (attr : Attr) (user pi : Bool)
      → negative32 attr.policy ≡ false
      → attr.policy ≢ sched_lottery
      → (e : Errno) × (sched_setscheduler_attr s p attr user pi ≡ (some e, s))
  unfolding sched_setscheduler_attr
  sched_setscheduler_attr-other s p attr user pi given other =
      by_answer (check_request s p attr user) refl
    where
      by_answer :
          (o : Outcome (ℕ × Bool))
          → check_request s p attr user ≡ o
          → (e : Errno) × ((elim o as (λ _. Option Errno × State K) [
            | refuse e ↦ (some e, s)
            | pass r ↦ setscheduler_locked (update_rq_clock s) p r.0 attr r.1 pi
          ])
              ≡ (some e, s))
      by_answer (refuse e) h = (e, refl)
      by_answer (pass r) h = absurd (
          other (
            sym (requested-policy s p attr user r given h)
            ∙ (check_request-lottery s p attr user r h).0))

  -- `sched_set_fifo` and `sched_set_fifo_low` always fail and leave the state as it was.
  pub sched_set_fifo-refused :
      (s : State K) (p : ℕ)
      → ((e : Errno) × (sched_set_fifo s p ≡ (some e, s)))
        × ((e : Errno) × (sched_set_fifo_low s p ≡ (some e, s)))
  unfolding sched_set_fifo sched_set_fifo_low sched_setscheduler_nocheck setscheduler_param
      test_bits
  sched_set_fifo-refused s p = (given (K.max_rt_prio / 2), given 1)
    where
      -- The policy is given without the old SCHED_RESET_ON_FORK bit.
      plain :
          (not (sched_fifo == setparam_policy) && test_bits sched_fifo sched_reset_on_fork_bit)
          ≡ false
      plain = refl

      given :
          (prio : ℕ) → (e : Errno) × (setscheduler_param s p sched_fifo prio false ≡ (some e, s))
      given prio =
          let attr : Attr = record {
            policy = sched_fifo;
            flags = 0;
            nice = task_nice s p;
            priority = prio;
          } in
          rw plain (sched_setscheduler_attr-other s p attr false true refl fifo_other)
