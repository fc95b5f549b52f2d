-- ===== src/Core/Charged.antt =====
-- The run time of the task on the CPU, `task_sched_runtime` of kernel/sched/core.c, after runs of the
-- scheduler.
use lottery_scheduler.Base.{ℕ, ◌≡◌, ◌≢◌, ◌↔◌, true, none, some, arith, sym, ◌∙◌}
use lottery_scheduler.Task.{ltr_policy}
use lottery_scheduler.Machine.{Kernel, State}
use lottery_scheduler.Core.Schedule.{voluntary, schedule}
use lottery_scheduler.Core.Running.{PicksQueued}
use lottery_scheduler.Core.Reach.{IsRunning, Reach, Reach-schedule}
use lottery_scheduler.Core.Runtime.{task_sched_runtime, task_sched_runtime-fault}

module _ {K : Kernel} where
  running-fault :
      (s : State K) (p : ℕ)
      → IsRunning s
      → (task_sched_runtime s p ≡ none) ↔ ((p ≡ s.rq.curr) × (ltr_policy (s.tasks p).policy ≡ true))
  running-fault s p r =
      let f = task_sched_runtime-fault s p in
      let same = r.system.by_policy p in
      (
        (λ e. ((f.0 e).0, sym same ∙ (f.0 e).2)),
        (λ (c, own). f.1 (c, ground (arith, c, r.curr), same ∙ own)),
      )

  -- After any run of ticks, sleeps, wakeups, forks, new nice levels, boosts, requests for a policy and
  -- switches that ends with __schedule, asking for the run time of a task calls a NULL pointer exactly
  -- if the task is on the CPU and has the policy SCHED_LOTTERY: if the run starts with a queued task on
  -- the CPU, the idle task does not block and the other classes keep their promise.
  pub Reach-fault :
      {s t : State K}
      → PicksQueued K s.rq.idle
      → IsRunning s
      → Reach s t
      → (mode : ℕ) → (voluntary t mode ≡ true → t.rq.idle ≢ t.rq.curr)
      → (u : State K) × (schedule t mode ≡ some u)
        × ((p : ℕ)
            → (task_sched_runtime u p ≡ none)
              ↔ ((p ≡ u.rq.curr) × (ltr_policy (u.tasks p).policy ≡ true)))
  Reach-fault promise r reach mode stays =
      let (u, e, running) = Reach-schedule promise r reach mode stays in
      (u, e, λ p. running-fault u p running)
