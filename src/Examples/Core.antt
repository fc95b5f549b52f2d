-- ===== src/Examples/Core.antt =====
-- The theorems on kernel/sched/core.c at the small machine.
use lottery_scheduler.Base.{pos, ℕ, ◌%◌, ◌≡◌, refl, some, [], ◌∷◌, get_elem?, arith}
use lottery_scheduler.Task.{address, task_normal}
use lottery_scheduler.Machine.{State, members, task}
use lottery_scheduler.Lottery.Draw.{book}
use lottery_scheduler.Core.Pick.{put_prev_task, pick_next_task}
use lottery_scheduler.Core.Schedule.{schedule}
use lottery_scheduler.Core.Wakeup.{try_to_wake_up, wake_up_new_task}
use lottery_scheduler.Core.System.{IsSystem}
use lottery_scheduler.Core.Switch.{schedule-IsSystem}
use lottery_scheduler.Core.Nice.{set_user_nice}
use lottery_scheduler.Core.Requeue.{set_user_nice-IsSystem}
use lottery_scheduler.Core.Wakes.{try_to_wake_up-IsSystem, wake_up_new_task-IsSystem}
use lottery_scheduler.Base.{has, true}
use lottery_scheduler.Core.Hooks.{is_lottery}
use lottery_scheduler.Core.Order.{pick-lottery_first}
use lottery_scheduler.Core.Undrawn.{enqueue_all, pick-no_draw}
use lottery_scheduler.Examples.Machine.{
  kernel, machine, idle_machine, machine-IsSystem, machine-IsDrawable, kernel-PicksQueued,
}

schedule-IsSystem_example :
    (t : State kernel) × (schedule machine 0 ≡ some t)
    × IsSystem t
    × ((t.tasks t.rq.curr).on_rq ≡ 1)
schedule-IsSystem_example =
    schedule-IsSystem kernel-PicksQueued 0 (machine-IsSystem 1) refl refl (λ h. λ e. omega arith)

try_to_wake_up-IsSystem_example : IsSystem (try_to_wake_up machine 4 task_normal 0).1
try_to_wake_up-IsSystem_example = try_to_wake_up-IsSystem (machine-IsSystem 1) 4 task_normal 0

wake_up_new_task-IsSystem_example : IsSystem (wake_up_new_task machine 4)
wake_up_new_task-IsSystem_example =
    wake_up_new_task-IsSystem (machine-IsSystem 1) 4 (λ e. omega arith)

pick-lottery_first_example :
    (p : ℕ) × (get_elem?
        (book machine.tasks (1 ∷ 2 ∷ 3 ∷ []))
        ((kernel.get_random_u32 (put_prev_task machine 1).ext).0 % 15)
      ≡ some p)
    × ((pick_next_task machine 1).0 ≡ some p)
unfolding address
pick-lottery_first_example = pick-lottery_first machine 1 (machine-IsDrawable 1) refl

set_user_nice-IsSystem_example : IsSystem (set_user_nice machine 2 (pos 5))
set_user_nice-IsSystem_example = set_user_nice-IsSystem (machine-IsSystem 1) 2 (pos 5)

-- Task 4 is enqueued while the idle task runs.
pick-no_draw_example :
    let u : State kernel = enqueue_all idle_machine (4 ∷ []) in
    ((pick_next_task u 0).1.log ≡ u.log)
    × (members (pick_next_task u 0).1 ≡ 1 ∷ 2 ∷ 3 ∷ 4 ∷ [])
    × ((q : ℕ)
        → (kernel.pick_next_task_fair u.tasks 0 u.ext).0 ≡ task q
        → (pick_next_task u 0).0 ≡ some q)
unfolding address
pick-no_draw_example =
    pick-no_draw idle_machine (4 ∷ []) 0 (machine-IsSystem 0).coherent only_four refl (omega arith)
      refl (λ h. cc)
  where
    only_four :
        (p : ℕ) → has p (4 ∷ []) ≡ true → is_lottery (idle_machine.tasks p).sched_class ≡ true
    only_four p h = ground (arith, h)
