-- ===== src/Syscall/ReadBack.antt =====
-- What `sched_setattr` of kernel/sched/core.c sets is what `sched_getscheduler` and `sched_getattr`
-- answer.
use Prim.Native.Nat.{bit_or}
use lottery_scheduler.Base.{
  ℕ, ◌≡◌, refl, sym, ap, ◌∙◌, true, false, Option, none, some, arith, ◌||◌, not, ◌==◌,
  if◌then◌else◌, Bool-cases, inl, inr, ℤ, pos,
}
use lottery_scheduler.Task.{test_bits}
use lottery_scheduler.Machine.{Kernel, Errno, einval, Attr, State}
use lottery_scheduler.Core.Setscheduler.Request.{
  pass, negative32, keep_params_flag, reset_on_fork_flag, sched_reset_on_fork_bit,
}
use lottery_scheduler.Core.Setscheduler.Calls.{sched_setscheduler_attr}
use lottery_scheduler.Core.Told.{Told}
use lottery_scheduler.Core.Obeyed.{sched_setscheduler_attr-Obeys}
use lottery_scheduler.Core.Spared.{sched_setscheduler_attr-Stays}
use lottery_scheduler.Syscall.User.{
  UserSpace, System, negative, find_process_by_pid, on_process, readable,
}
use lottery_scheduler.Syscall.Attributes.{sched_copy_attr, get_params}
use lottery_scheduler.Syscall.Setters.{
  set_attr, setattr_copied, sys_sched_setattr, keep_policy_flag,
}
use lottery_scheduler.Syscall.Getters.{ask, policy_word, sys_sched_getscheduler, attr_of}

module _ {K : Kernel} {U : UserSpace} where
  -- A call on a process that answers 0 has found the process.
  on_process-eq-none :
      (s t : System K U) (o : Option ℕ) (call : ℕ → Option Errno × State K)
      → on_process s o call ≡ (none, t)
      → (p : ℕ) × (o ≡ some p) × ((call p).0 ≡ none) × (t ≡ record s { sched = (call p).1 })
  unfolding on_process
  on_process-eq-none s t none call h = cc
  on_process-eq-none s t (some p) call h = (p, refl, ap (λ r. r.0) h, sym (ap (λ r. r.1) h))

  set_attr-plain :
      (s : System K U) (p : ℕ) (attr : Attr)
      → test_bits attr.flags keep_policy_flag ≡ false
      → test_bits attr.flags keep_params_flag ≡ false
      → set_attr s p attr ≡ sched_setscheduler_attr s.sched p attr true true
  unfolding set_attr
  set_attr-plain s p attr new_policy new_params = rw (new_policy, new_params)

  -- The process of a number, after the call on that process.
  find_process-after :
      (s : System K U) (pid : ℤ) (p : ℕ) (x : State K)
      → find_process_by_pid s pid ≡ some p
      → x.rq.curr ≡ s.sched.rq.curr
      → find_process_by_pid {K = K} {U = U} (record s { sched = x }) pid ≡ some p
  unfolding find_process_by_pid
  find_process-after s pid p x found same = rw same found

  readable-answer :
      (s : System K U) (o : Option ℕ) (p : ℕ)
      → o ≡ some p
      → U.security_task_getscheduler p s.world ≡ none
      → readable s o ≡ pass p
  unfolding readable
  readable-answer s none p found free = cc
  readable-answer s (some q) p found free = ground (arith, found, free)

  getscheduler-answer :
      (s : System K U) (pid : ℤ) (p : ℕ)
      → negative pid ≡ false
      → find_process_by_pid s pid ≡ some p
      → U.security_task_getscheduler p s.world ≡ none
      → sys_sched_getscheduler s pid ≡ pass (policy_word s p)
  unfolding sys_sched_getscheduler
  getscheduler-answer s pid p nonneg found free =
      rw nonneg (
        ap (λ o. ask o (policy_word s))
          (readable-answer s (find_process_by_pid s pid) p found free))

  -- `sched_setattr` with a request `attr` has answered 0 on the task `p`.
  record Granted (s : System K U) (pid : ℤ) (attr : Attr) (t : System K U) (p : ℕ) : Type 0 where
    found : find_process_by_pid s pid ≡ some p
    given : negative32 attr.policy ≡ false
    after : t ≡ record s { sched = (set_attr s p attr).1 }
    ok : (set_attr s p attr).0 ≡ none

  copied-Granted :
      (s t : System K U) (pid : ℤ) (attr : Attr)
      → setattr_copied s pid (pass attr) ≡ (none, t)
      → (p : ℕ) × Granted s pid attr t p
  unfolding setattr_copied
  copied-Granted s t pid attr h = elim (Bool-cases (negative32 attr.policy)) [
    | inl bad ↦ absurd_answer (rw bad at h)
    | inr given ↦
        let (p, found, ok, after) =
          on_process-eq-none s t (find_process_by_pid s pid) (λ q. set_attr s q attr)
            (rw given at h) in
        (p, record { found = found; given = given; after = after; ok = ok })
  ]
    where
      absurd_answer :
          ◌≡◌ {A = Option Errno × System K U} (some einval, s) (none, t)
          → (p : ℕ) × Granted s pid attr t p
      absurd_answer e = cc

  attr_of-policy : (s : System K U) (p : ℕ) → (attr_of s p).policy ≡ (s.sched.tasks p).policy
  unfolding attr_of get_params
  attr_of-policy s p =
      let t = s.sched.tasks p in
      let flags : ℕ = if t.sched_reset_on_fork then 0x01 else 0 in
      ground (
        arith,
        U.getparam_dl-policy t
            (record { policy = t.policy; flags = flags; nice = pos 0; priority = 0 }),
      )

  -- The request has been carried out.
  Granted-Told :
      (s t : System K U) (pid : ℤ) (attr : Attr) (p : ℕ)
      → Granted s pid attr t p
      → test_bits attr.flags keep_policy_flag ≡ false
      → test_bits attr.flags keep_params_flag ≡ false
      → Told t.sched p attr.policy (test_bits attr.flags reset_on_fork_flag)
        × (find_process_by_pid t pid ≡ some p)
        × (t.world ≡ s.world)
  Granted-Told s t pid attr p g new_policy new_params =
      let plain = set_attr-plain s p attr new_policy new_params in
      let after : t ≡ record s { sched = (sched_setscheduler_attr s.sched p attr true true).1 } =
        g.after ∙ ap (λ r. record s { sched = r.1 }) plain in
      let ok = ap (λ r. r.0) (sym plain) ∙ g.ok in
      let kept = sched_setscheduler_attr-Stays s.sched p attr true true in
      rw after (
        sched_setscheduler_attr-Obeys s.sched p attr true true g.given new_params ok,
        find_process-after s pid p _ g.found kept.curr,
        refl,
      )

  setattr-copied :
      (s t : System K U) (pid : ℤ) (uattr : ℕ) (attr : Attr)
      → sched_copy_attr s uattr ≡ (pass attr, s)
      → sys_sched_setattr s pid uattr 0 ≡ (none, t)
      → (negative pid ≡ false) × (setattr_copied s pid (pass attr) ≡ (none, t))
  unfolding sys_sched_setattr
  setattr-copied s t pid uattr attr copied h =
      elim (Bool-cases (uattr == 0 || (negative pid || not (0 == 0)))) [
        | inl bad ↦ no_answer (rw bad at h)
        | inr fine ↦ (
          ground (arith, fine),
          ap (λ r. setattr_copied r.1 pid r.0) (sym copied) ∙ (rw fine at h),
        )
      ]
    where
      no_answer :
          ◌≡◌ {A = Option Errno × System K U} (some einval, s) (none, t)
          → (negative pid ≡ false) × (setattr_copied s pid (pass attr) ≡ (none, t))
      no_answer e = cc

  -- After `sched_setattr` has answered 0, the process is the same, `sched_getscheduler` answers the
  -- policy that was asked for with SCHED_RESET_ON_FORK if that flag was set, and `sched_getattr`
  -- reports the policy: unless the request keeps the policy or the parameters, and if the
  -- security module lets the caller read.
  pub setattr-getscheduler :
      (s t : System K U) (pid : ℤ) (uattr : ℕ) (attr : Attr)
      → sched_copy_attr s uattr ≡ (pass attr, s)
      → test_bits attr.flags keep_policy_flag ≡ false
      → test_bits attr.flags keep_params_flag ≡ false
      → ((p : ℕ) → U.security_task_getscheduler p s.world ≡ none)
      → sys_sched_setattr s pid uattr 0 ≡ (none, t)
      → (sys_sched_getscheduler t pid
          ≡ pass (
              bit_or attr.policy
                (if test_bits attr.flags reset_on_fork_flag then sched_reset_on_fork_bit else 0)))
        × ((p : ℕ) × (find_process_by_pid s pid ≡ some p)
            × (find_process_by_pid t pid ≡ some p)
            × ((attr_of t p).policy ≡ attr.policy))
  unfolding policy_word
  setattr-getscheduler s t pid uattr attr copied new_policy new_params free h =
      let (nonneg, done) = setattr-copied s t pid uattr attr copied h in
      let (p, g) = copied-Granted s t pid attr done in
      let ((policy, reset), found, same) = Granted-Told s t pid attr p g new_policy new_params in
      (
        getscheduler-answer t pid p nonneg found (ap (U.security_task_getscheduler p) same ∙ free p)
            ∙ ap pass (rw (policy, reset)),
        (p, g.found, found, attr_of-policy t p ∙ policy),
      )
