-- ===== src/Core/Setscheduler/Calls.antt =====
-- `__sched_setscheduler` of kernel/sched/core.c as a whole, and the calls that end in it.
use Prim.Native.Nat.{bit_and}
use lottery_scheduler.Base.{
  ℕ, ◌-◌, ◌/◌, Bool, true, false, Option, some, ◌&&◌, not, ◌==◌, if◌then◌else◌, ℤ, ◌^◌,
}
use lottery_scheduler.Task.{sched_fifo, sched_lottery, test_bits}
use lottery_scheduler.Machine.{Kernel, Attr, Errno, State}
use lottery_scheduler.Core.Clock.{update_rq_clock}
use lottery_scheduler.Core.Prio.{task_nice}
use lottery_scheduler.Core.Setscheduler.Request.{
  reset_on_fork_flag, setparam_policy, sched_reset_on_fork_bit, pass, refuse, check_request,
}
use lottery_scheduler.Core.Setscheduler.Change.{setscheduler_locked}

module _ {K : Kernel} where
  -- `__sched_setscheduler`: the error code, none for 0, and the new state.
  unfoldable pub sched_setscheduler_attr :
      State K → (p : ℕ) → Attr → (user pi : Bool) → Option Errno × State K
  unfolding check_request setscheduler_locked
  sched_setscheduler_attr s p attr user pi = elim (check_request s p attr user) [
    | refuse e ↦ (some e, s)
    | pass r ↦ setscheduler_locked (update_rq_clock s) p r.0 attr r.1 pi
  ]

  -- `_sched_setscheduler`, with the old SCHED_RESET_ON_FORK bit of the policy.
  unfoldable pub setscheduler_param :
      State K → (p policy priority : ℕ) → (check : Bool) → Option Errno × State K
  unfolding sched_setscheduler_attr
  setscheduler_param s p policy priority check =
      let legacy = not (policy == setparam_policy) && test_bits policy sched_reset_on_fork_bit in
      sched_setscheduler_attr s p
        (record {
          policy = if legacy then bit_and policy (2 ^ 32 - 1 - sched_reset_on_fork_bit) else policy;
          flags = if legacy then reset_on_fork_flag else 0;
          nice = task_nice s p;
          priority = priority;
        })
        check true

  -- `sched_setscheduler(p, policy, param)` and `sched_setscheduler_nocheck`
  unfoldable pub sched_setscheduler : State K → (p policy priority : ℕ) → Option Errno × State K
  unfolding setscheduler_param
  sched_setscheduler s p policy priority = setscheduler_param s p policy priority true

  unfoldable pub sched_setscheduler_nocheck :
      State K → (p policy priority : ℕ) → Option Errno × State K
  unfolding setscheduler_param
  sched_setscheduler_nocheck s p policy priority = setscheduler_param s p policy priority false

  -- The result tells whether `WARN_ON_ONCE` fires.
  unfoldable pub sched_set_fifo : State K → (p : ℕ) → Option Errno × State K
  unfolding sched_setscheduler_nocheck
  sched_set_fifo s p = sched_setscheduler_nocheck s p sched_fifo (K.max_rt_prio / 2)

  unfoldable pub sched_set_fifo_low : State K → (p : ℕ) → Option Errno × State K
  unfolding sched_setscheduler_nocheck
  sched_set_fifo_low s p = sched_setscheduler_nocheck s p sched_fifo 1

  unfoldable pub sched_set_normal : State K → (p : ℕ) → ℤ → Option Errno × State K
  unfolding sched_setscheduler_attr
  sched_set_normal s p nice =
      sched_setscheduler_attr s p
        (record { policy = sched_lottery; flags = 0; nice = nice; priority = 0 }) false true
