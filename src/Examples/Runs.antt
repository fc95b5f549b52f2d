-- ===== src/Examples/Runs.antt =====
-- A run of the small machine: a child is made and woken, a tick comes, a task gets another nice level.
use lottery_scheduler.Task.{ltr_policy}
use lottery_scheduler.Core.Runtime.{task_sched_runtime}
use lottery_scheduler.Core.Charged.{Reach-fault}
use lottery_scheduler.Base.{ℕ, ◌↔◌, true, none, ◌≡◌, refl, some, arith, pos}
use lottery_scheduler.Machine.{State}
use lottery_scheduler.Core.Schedule.{schedule, scheduler_tick, voluntary}
use lottery_scheduler.Core.Wakeup.{wake_up_new_task}
use lottery_scheduler.Core.Nice.{set_user_nice}
use lottery_scheduler.Core.Fork.{dup_task, sched_fork}
use lottery_scheduler.Core.Forked.{IsSystem-But, dup_task-IsSystemBut, sched_fork-IsSystem}
use lottery_scheduler.Core.Reach.{Reach, here, next, Step, IsRunning, Reach-schedule, dup_task-Fits}
use lottery_scheduler.Examples.Machine.{kernel, machine, machine-IsSystem, kernel-PicksQueued}

abbrev forked : State kernel
forked = (sched_fork (dup_task machine 4) 4).1

abbrev reniced : State kernel
reniced = set_user_nice (scheduler_tick (wake_up_new_task forked 4)) 2 (pos 5)

run : Reach machine reniced
run =
    let but = IsSystem-But 4 (machine-IsSystem 1) (λ e. omega arith) in
    let child =
      sched_fork-IsSystem 4 (dup_task-IsSystemBut 4 but)
        (dup_task-Fits machine 4 (machine-IsSystem 1)) in
    next
      (next
        (next (next here (Step.fork machine 4 (λ e. omega arith)))
          (Step.wake_new forked 4 (λ e. omega (arith, child.1))))
        (Step.tick (wake_up_new_task forked 4)))
      (Step.nice (scheduler_tick (wake_up_new_task forked 4)) 2 (pos 5))

Reach-schedule_example : (u : State kernel) × (schedule reniced 1 ≡ some u) × IsRunning u
unfolding voluntary
Reach-schedule_example =
    Reach-schedule kernel-PicksQueued
      (record { system = machine-IsSystem 1; curr = refl; idle = refl }) run 1 (λ h. cc)

Reach-fault_example :
    (u : State kernel) × (schedule reniced 1 ≡ some u)
    × ((p : ℕ)
        → (task_sched_runtime u p ≡ none)
          ↔ ((p ≡ u.rq.curr) × (ltr_policy (u.tasks p).policy ≡ true)))
unfolding voluntary
Reach-fault_example =
    Reach-fault kernel-PicksQueued
      (record { system = machine-IsSystem 1; curr = refl; idle = refl }) run 1 (λ h. cc)
