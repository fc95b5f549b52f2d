-- ===== src/Examples/Queue.antt =====
-- The theorems on kernel/sched/lottery.c at the small machine.
use lottery_scheduler.Base.{
  ℕ, ◌+◌, ◌*◌, ◌/◌, ◌%◌, ◌≤◌, ◌≡◌, refl, some, [], ◌∷◌, ◌⊎◌, get_elem?, u32_mod, count_below,
}
use lottery_scheduler.Machine.{Op, members, with_ext}
use lottery_scheduler.Lottery.Hooks.{
  task_tick_lottery, enqueue_task_lottery, dequeue_task_lottery, pick_next_task_lottery, log_event,
  winner, switched_from_lottery,
}
use lottery_scheduler.Lottery.Queue.{
  IsCoherent, enqueue-IsCoherent, dequeue-IsCoherent, dequeue-enqueue, switched_from-dequeue,
}
use lottery_scheduler.Lottery.Draw.{book, pick-book, pick-total, NothingPicked, MemberPicked}
use lottery_scheduler.Lottery.Share.{is_task, wins-round, wins-share}
use lottery_scheduler.Base.{count_below, true, false, arith}
use lottery_scheduler.Machine.{with_ext}
use lottery_scheduler.Examples.Machine.{kernel}
use lottery_scheduler.Lottery.Tick.{task_tick-share}
use lottery_scheduler.Examples.Machine.{machine, machine-IsSystem, machine-IsDrawable}

wins-share_example :
    (u32_mod / 15 * 5 ≤ count_below u32_mod (λ r. is_task 2 (winner machine r)))
    × (count_below u32_mod (λ r. is_task 2 (winner machine r)) ≤ (u32_mod / 15 + 1) * 5)
wins-share_example = wins-share (machine-IsDrawable 1) 2 refl

wins-round_example : count_below 15 (λ r. is_task 2 (winner machine r)) ≡ 5
wins-round_example = wins-round (machine-IsDrawable 1) 2 refl

pick-book_example :
    (p : ℕ) × (get_elem? (book machine.tasks (1 ∷ 2 ∷ 3 ∷ [])) (7 % u32_mod % 15) ≡ some p)
    × (pick_next_task_lottery machine ≡ (some p, log_event (with_ext machine 8) p Op.select))
pick-book_example = pick-book (machine-IsDrawable 1)

pick-total_example : NothingPicked machine ⊎ MemberPicked machine
pick-total_example = pick-total (machine-IsSystem 1).coherent

enqueue-IsCoherent_example :
    IsCoherent (enqueue_task_lottery machine 4 0)
    × (members (enqueue_task_lottery machine 4 0) ≡ 1 ∷ 2 ∷ 3 ∷ 4 ∷ [])
enqueue-IsCoherent_example = enqueue-IsCoherent (machine-IsSystem 1).coherent 4 0 refl

dequeue-IsCoherent_example :
    IsCoherent (dequeue_task_lottery machine 2 0)
    × (members (dequeue_task_lottery machine 2 0) ≡ 1 ∷ 3 ∷ [])
dequeue-IsCoherent_example = dequeue-IsCoherent (machine-IsSystem 1).coherent 2 0 refl

dequeue-enqueue_example :
    ((dequeue_task_lottery (enqueue_task_lottery machine 4 0) 4 0).rq.ltr.nr_running ≡ 3)
    × ((dequeue_task_lottery (enqueue_task_lottery machine 4 0) 4 0).rq.ltr.total_tickets ≡ 15)
    × (members (dequeue_task_lottery (enqueue_task_lottery machine 4 0) 4 0) ≡ 1 ∷ 2 ∷ 3 ∷ [])
dequeue-enqueue_example = dequeue-enqueue (machine-IsSystem 1).coherent 4 0 0 refl

switched_from-dequeue_example :
    (kernel.lists.faulted (dequeue_task_lottery machine 2 0).links ≡ false)
    × (kernel.lists.faulted (switched_from_lottery (dequeue_task_lottery machine 2 0) 2).links
        ≡ true)
    × ((switched_from_lottery (dequeue_task_lottery machine 2 0) 2).rq.ltr
        ≡ (dequeue_task_lottery machine 2 0).rq.ltr)
    × ((switched_from_lottery (dequeue_task_lottery machine 2 0) 2).log
        ≡ (dequeue_task_lottery machine 2 0).log)
switched_from-dequeue_example = switched_from-dequeue (machine-IsSystem 1).coherent 2 0 refl

-- The outside state of the small machine is the seed.
task_tick-share_example :
    count_below u32_mod (λ r. ((task_tick_lottery (with_ext machine r) 1).tasks 1).need_resched)
    ≡ 429496730
task_tick-share_example = task_tick-share machine 1 (λ r. r) (λ r lt. omega (arith, lt)) refl
