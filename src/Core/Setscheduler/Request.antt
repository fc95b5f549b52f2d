-- ===== src/Core/Setscheduler/Request.antt =====
-- What `__sched_setscheduler` of kernel/sched/core.c checks before it takes the run queue's lock.
use lottery_scheduler.Base.{
  ℕ, ◌+◌, ◌-◌, Bool, true, false, Option, none, some, ◌&&◌, ◌||◌, not, ◌==◌, ltb, leb,
  if◌then◌else◌, ltb_ℤ, ◌^◌, ◌≡◌, refl,
}
use mathlib.Core.Bool.{xor}
use lottery_scheduler.Task.{
  valid_policy, idle_policy, fair_policy, rt_policy, dl_policy, ltr_policy, test_bits,
}
use lottery_scheduler.Machine.{Kernel, Attr, Errno, einval, eperm, eopnotsupp, State}
use lottery_scheduler.Core.Prio.{can_nice, task_nice}

abbrev pub reset_on_fork_flag : ℕ
reset_on_fork_flag = 0x01

abbrev pub keep_params_flag : ℕ
keep_params_flag = 0x10

abbrev pub util_clamp_flag : ℕ
util_clamp_flag = 0x60

-- `SCHED_FLAG_ALL`
abbrev pub all_flags : ℕ
all_flags = 0x7f

abbrev pub sugov_flag : ℕ
sugov_flag = 0x1000_0000

-- `SETPARAM_POLICY`, which is -1, and SCHED_RESET_ON_FORK
abbrev pub setparam_policy : ℕ
setparam_policy = 2 ^ 32 - 1

abbrev pub sched_reset_on_fork_bit : ℕ
sched_reset_on_fork_bit = 0x4000_0000

-- A word of 32 bits is negative as an `int`.
abbrev pub negative32 : ℕ → Bool
negative32 a = leb (2 ^ 31) a

-- A check refuses the request with an error code, or lets it pass.
pub data Outcome {ℓ} (A : Type ℓ) : Type ℓ where
  refuse : Errno → Outcome A
  pass : A → Outcome A

-- `if (refused) return -e;`
abbrev pub refuse_if : Bool → Errno → Outcome (Unit {0})
refuse_if refused e = if refused then refuse e else pass tt

infixl 5 ◌>>=◌
abbrev pub ◌>>=◌ {ℓ κ} : {A : Type ℓ} {B : Type κ} → Outcome A → (A → Outcome B) → Outcome B
refuse code >>= rest = refuse code
pass value >>= rest = rest value

-- Inversion of a chain of checks that succeeds.
pub >>=-eq-pass {ℓ κ} :
    {A : Type ℓ} {B : Type κ} (m : Outcome A) (f : A → Outcome B) {b : B}
    → (m >>= f) ≡ pass b
    → (a : A) × (m ≡ pass a) × (f a ≡ pass b)
>>=-eq-pass (pass a) f h = (a, refl, h)
>>=-eq-pass (refuse e) f h = cc

pub refuse_if-eq-pass : (b : Bool) (e : Errno) {u : Unit {0}} → refuse_if b e ≡ pass u → b ≡ false
refuse_if-eq-pass true e h = cc
refuse_if-eq-pass false e h = refl

-- The check that the first error ends.
infixl 5 ◌>>◌
abbrev pub ◌>>◌ {ℓ} : {A : Type ℓ} → Outcome (Unit {0}) → Outcome A → Outcome A
refuse code >> rest = refuse code
pass _ >> rest = rest

abbrev pub when : Bool → Outcome (Unit {0}) → Outcome (Unit {0})
when true m = m
when false m = pass tt

abbrev pub answer : Option Errno → Outcome (Unit {0})
answer none = pass tt
answer (some e) = refuse e

module _ {K : Kernel} where
  -- The policy asked for, or the present one for a negative number, and `reset_on_fork`.
  unfoldable pub requested : State K → (p : ℕ) → Attr → Outcome (ℕ × Bool)
  unfolding valid_policy
  requested s p attr =
      if negative32 attr.policy
      then pass ((s.tasks p).policy, (s.tasks p).sched_reset_on_fork)
      else do
        refuse_if (not (valid_policy attr.policy)) einval
        pass (attr.policy, test_bits attr.flags reset_on_fork_flag)

  -- The flags and the priority of the request.
  unfoldable pub check_attr : (policy : ℕ) → Attr → State K → Outcome (Unit {0})
  check_attr policy attr s = do
    refuse_if (test_bits attr.flags (2 ^ 64 - 1 - (all_flags + sugov_flag))) einval
    refuse_if (ltb (K.max_rt_prio - 1) attr.priority) einval
    refuse_if
        (dl_policy policy && not (K.checkparam_dl attr)
          || (xor (rt_policy policy) (not (attr.priority == 0)) || not (ltr_policy policy)))
        einval

  -- The caller's effective user owns the task.
  unfoldable pub check_same_owner : State K → (p : ℕ) → Bool
  check_same_owner s p =
      let euid = K.euid s.rq.curr s.ext in euid == K.euid p s.ext || euid == K.uid p s.ext

  -- `user && !capable(CAP_SYS_NICE)`
  unfoldable pub check_unprivileged :
      State K → (p policy : ℕ) (reset_on_fork : Bool) → Attr → Outcome (Unit {0})
  unfolding check_same_owner
  check_unprivileged s p policy reset_on_fork attr = do
    let t = s.tasks p
    let rlim = K.rlimit_rtprio p s.ext
    refuse_if
        (fair_policy policy && (ltb_ℤ attr.nice (task_nice s p) && not (can_nice s p attr.nice)))
        eperm
    refuse_if (rt_policy policy && (not (policy == t.policy) && rlim == 0)) eperm
    refuse_if (rt_policy policy && (ltb t.rt_priority attr.priority && ltb rlim attr.priority))
        eperm
    refuse_if (dl_policy policy) eperm
    refuse_if
        (idle_policy t.policy && (not (idle_policy policy) && not (can_nice s p (task_nice s p))))
        eperm
    refuse_if (not (check_same_owner s p)) eperm
    refuse_if (t.sched_reset_on_fork && not reset_on_fork) eperm

  -- All that is checked before the run queue is locked. `uclamp_validate` is -EOPNOTSUPP here.
  unfoldable pub check_request : State K → (p : ℕ) → Attr → (user : Bool) → Outcome (ℕ × Bool)
  unfolding requested check_attr check_unprivileged
  check_request s p attr user = do
    (policy, reset_on_fork) ← requested s p attr
    check_attr policy attr s
    when (user && not (K.capable_nice s.ext)) (check_unprivileged s p policy reset_on_fork attr)
    refuse_if (user && test_bits attr.flags sugov_flag) einval
    when user (answer (K.security_task_setscheduler p s.ext))
    refuse_if (test_bits attr.flags util_clamp_flag) eopnotsupp
    pass (policy, reset_on_fork)
