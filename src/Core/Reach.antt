-- ===== src/Core/Reach.antt =====
-- The runs of kernel/sched/core.c on one CPU: every operation is a step, in any order, and
-- `__schedule` always finds a task.
use lottery_scheduler.Base.{
  ℕ, ◌≡◌, ◌≢◌, refl, ap, sym, ◌∙◌, Bool, true, false, Option, some, arith, ◌⊎◌, ℤ, subst,
}
use mathlib.Core.Option.{some-injective}
use lottery_scheduler.Task.{task_on_rq_queued, ltr_policy, write}
use lottery_scheduler.Machine.{Kernel, Attr, State, put_task}
use lottery_scheduler.Core.Hooks.{is_lottery}
use lottery_scheduler.Core.Schedule.{voluntary, set_state, schedule, scheduler_tick}
use lottery_scheduler.Core.Wakeup.{try_to_wake_up, wake_up_new_task}
use lottery_scheduler.Core.Nice.{set_user_nice}
use lottery_scheduler.Core.Boost.{rt_mutex_setprio}
use lottery_scheduler.Core.Setscheduler.Request.{negative32, setparam_policy}
use lottery_scheduler.Core.Setscheduler.Calls.{sched_setscheduler_attr}
use lottery_scheduler.Core.Fork.{dup_task, sched_fork}
use lottery_scheduler.Core.System.{IsSystem, Frame-IsSystem}
use lottery_scheduler.Core.Running.{PicksQueued}
use lottery_scheduler.Core.Blocking.{Frame-set_state}
use lottery_scheduler.Core.Switch.{schedule_lem, scheduler_tick-IsSystem, Frame-scheduler_tick}
use lottery_scheduler.Core.Wakes.{try_to_wake_up-IsSystem, wake_up_new_task-IsSystem}
use lottery_scheduler.Core.Requeue.{set_user_nice-IsSystem}
use lottery_scheduler.Core.Boosted.{rt_mutex_setprio-IsSystem}
use lottery_scheduler.Core.Granted.{sched_setscheduler_attr-IsSystem}
use lottery_scheduler.Core.Forked.{IsSystem-But, dup_task-IsSystemBut, sched_fork-IsSystem}
use lottery_scheduler.Core.Stays.{Stays, Frame-Stays}
use lottery_scheduler.Core.Kept.{
  try_to_wake_up-Stays, wake_up_new_task-Stays, set_user_nice-Stays, rt_mutex_setprio-Stays,
}
use lottery_scheduler.Core.Spared.{sched_setscheduler_attr-Stays, fork-Stays}

module _ {K : Kernel} where
  -- One operation. `sleep` is `set_current_state(v)`; `switch` asks that the idle task does not block.
  pub data Step : State K → State K → Type 0 where
    tick : (s : State K) → Step s (scheduler_tick s)
    sleep : (s : State K) (v : ℕ) → Step s (set_state s s.rq.curr v)
    wake : (s : State K) (p state flags : ℕ) → Step s (try_to_wake_up s p state flags).1
    fork :
        (s : State K) (p : ℕ)
        → (s.tasks p).on_rq ≢ task_on_rq_queued
        → Step s (sched_fork (dup_task s p) p).1
    wake_new :
        (s : State K) (p : ℕ)
        → (s.tasks p).on_rq ≢ task_on_rq_queued
        → Step s (wake_up_new_task s p)
    nice : (s : State K) (p : ℕ) (n : ℤ) → Step s (set_user_nice s p n)
    boost : (s : State K) (p : ℕ) (pi_task : Option ℕ) → Step s (rt_mutex_setprio s p pi_task)
    setscheduler :
        (s : State K) (p : ℕ) (attr : Attr) (user pi : Bool)
        → (negative32 attr.policy ≡ false) ⊎ (attr.policy ≡ setparam_policy)
        → Step s (sched_setscheduler_attr s p attr user pi).1
    switch :
        (s t : State K) (mode : ℕ)
        → (voluntary s mode ≡ true → s.rq.idle ≢ s.rq.curr)
        → schedule s mode ≡ some t
        → Step s t

  pub data Reach (s : State K) : State K → Type 0 where
    here : Reach s s
    next : {t u : State K} → Reach s t → Step t u → Reach s u

  -- The invariant, with the running task and the idle task queued.
  pub record IsRunning (s : State K) : Type 0 where
    pub system : IsSystem s
    pub curr : (s.tasks s.rq.curr).on_rq ≡ task_on_rq_queued
    pub idle : (s.tasks s.rq.idle).on_rq ≡ task_on_rq_queued

  -- What a step leaves.
  abbrev After : State K → State K → Type 0
  After s t = IsRunning t × (t.rq.idle ≡ s.rq.idle)

  Stays-After : {s t : State K} → IsRunning s → Stays s t → IsSystem t → After s t
  Stays-After {s} {t} r f i = (
    record {
      system = i;
      curr = ap (λ q. (t.tasks q).on_rq) f.curr ∙ f.queued s.rq.curr r.curr;
      idle = ap (λ q. (t.tasks q).on_rq) f.idle ∙ f.queued s.rq.idle r.idle;
    },
    f.idle,
  )

  -- `__schedule` finds a task, and what it leaves is running again.
  schedule-After :
      {s : State K}
      → PicksQueued K s.rq.idle
      → IsRunning s
      → (mode : ℕ) → (voluntary s mode ≡ true → s.rq.idle ≢ s.rq.curr)
      → (t : State K) × (schedule s mode ≡ some t) × After s t
  schedule-After promise r mode stays =
      let (t, e, i, curr, same, idle) = schedule_lem promise mode r.system r.curr r.idle stays in
      (
        t,
        e,
        (record { system = i; curr = curr; idle = ap (λ q. (t.tasks q).on_rq) same ∙ idle }, same),
      )

  -- The copy of the running task has a class that goes with its policy.
  pub dup_task-Fits :
      (s : State K) (p : ℕ)
      → IsSystem s
      → is_lottery ((dup_task s p).tasks p).sched_class ≡ ltr_policy ((dup_task s p).tasks p).policy
  unfolding dup_task put_task write
  dup_task-Fits s p i = ground (arith, i.by_policy s.rq.curr)

  Step-After : {s t : State K} → PicksQueued K s.rq.idle → IsRunning s → Step s t → After s t
  Step-After promise r (tick s) =
      Stays-After r (Frame-Stays (Frame-scheduler_tick s)) (scheduler_tick-IsSystem r.system).0
  Step-After promise r (sleep s v) =
      let f = Frame-set_state s s.rq.curr v in
      Stays-After r (Frame-Stays f) (Frame-IsSystem f r.system)
  Step-After promise r (wake s p state flags) =
      Stays-After r (try_to_wake_up-Stays s p state flags)
        (try_to_wake_up-IsSystem r.system p state flags)
  Step-After promise r (fork s p off) =
      let but = IsSystem-But p r.system off in
      Stays-After r (fork-Stays s p off)
        (sched_fork-IsSystem p (dup_task-IsSystemBut p but) (dup_task-Fits s p r.system)).0
  Step-After promise r (wake_new s p off) =
      Stays-After r (wake_up_new_task-Stays s p) (wake_up_new_task-IsSystem r.system p off)
  Step-After promise r (nice s p n) =
      Stays-After r (set_user_nice-Stays s p n) (set_user_nice-IsSystem r.system p n)
  Step-After promise r (boost s p o) =
      Stays-After r (rt_mutex_setprio-Stays s p o) (rt_mutex_setprio-IsSystem r.system p o)
  Step-After promise r (setscheduler s p attr user pi asked) =
      Stays-After r (sched_setscheduler_attr-Stays s p attr user pi)
        (sched_setscheduler_attr-IsSystem r.system p attr user pi asked)
  Step-After promise r (switch s t mode stays e) =
      let (u, found, after) = schedule-After promise r mode stays in
      subst (After s) (some-injective _ _ (sym found ∙ e)) after

  pub Reach-After : {s t : State K} → PicksQueued K s.rq.idle → IsRunning s → Reach s t → After s t
  Reach-After promise r here = (r, refl)
  Reach-After promise r (next reach step) =
      let (q, same) = Reach-After promise r reach in
      let (q', same') = Step-After (subst (PicksQueued K) (sym same) promise) q step in
      (q', same' ∙ same)

  -- After any run of ticks, sleeps, wakeups, forks, new nice levels, boosts, requests for a policy and
  -- switches, `__schedule` ends without its `BUG()` and leaves the invariant, with a queued task on
  -- the CPU and the idle task queued: if the run starts so, the idle task does not block, and the
  -- other classes keep their promise.
  pub Reach-schedule :
      {s t : State K}
      → PicksQueued K s.rq.idle
      → IsRunning s
      → Reach s t
      → (mode : ℕ) → (voluntary t mode ≡ true → t.rq.idle ≢ t.rq.curr)
      → (u : State K) × (schedule t mode ≡ some u) × IsRunning u
  Reach-schedule promise r reach mode stays =
      let (q, same) = Reach-After promise r reach in
      let (u, e, after) = schedule-After (subst (PicksQueued K) (sym same) promise) q mode stays in
      (u, e, after.0)
