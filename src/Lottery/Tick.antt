-- ===== src/Lottery/Tick.antt =====
-- How often `task_tick_lottery` of kernel/sched/lottery.c preempts the running task: counted over the
-- values that `get_random_bytes` can deliver.
use lottery_scheduler.Base.{
  ◌∙◌, Bool, true, false, u32_mod, count_below, count_below-ext, count_below-const,
  count_below-rounds, ◌<◌, if◌then◌else◌, ℕ, ◌%◌, ◌≡◌, refl, arith, ◌||◌, ◌&&◌, ◌==◌, ltb, leb,
  Bool-cases, inl, inr,
}
use lottery_scheduler.Task.{write}
use lottery_scheduler.Machine.{Kernel, State, put_task, with_ext}
use lottery_scheduler.Lottery.Hooks.{task_tick_lottery}
use lottery_scheduler.Core.Resched.{resched_curr, set_tsk_need_resched}

-- One in ten words, with one more for the words that are left over.
multiples : count_below u32_mod (λ r. r % 10 == 0) ≡ 429496730
unfolding count_below
multiples = count_below-rounds 10 429496729 6 (λ i. i == 0) (omega arith)

multiples_if :
    (many : Bool)
    → count_below u32_mod (λ r. many && (r % 10 == 0)) ≡ (if many then 429496730 else 0)
multiples_if true = multiples
multiples_if false = count_below-const u32_mod false

module _ {K : Kernel} where
  -- A tick asks for a reschedule if more than one task is counted and the random number is a
  -- multiple of ten. A request that stands already stays, and run queue, list and log are left alone.
  task_tick-need_resched :
      (s : State K) (p : ℕ)
      → let t : State K = task_tick_lottery s p in
        (t.rq ≡ s.rq)
        × (t.links ≡ s.links)
        × (t.log ≡ s.log)
        × ((t.tasks s.rq.curr).need_resched ≡ (
            (s.tasks s.rq.curr).need_resched
            || (ltb 1 s.rq.ltr.nr_running && ((K.get_random_u32 s.ext).0 % 10 == 0))))
  unfolding task_tick_lottery resched_curr set_tsk_need_resched put_task write
  task_tick-need_resched s p = elim (Bool-cases (leb s.rq.ltr.nr_running 1)) [
    | inl few ↦ rw few (refl, refl, refl, ground arith)
    | inr many ↦ elim (Bool-cases ((K.get_random_u32 s.ext).0 % 10 == 0)) [
      | inl drawn ↦ elim (Bool-cases (s.tasks s.rq.curr).need_resched) [
        | inl asked ↦ rw (many, drawn, asked) (refl, refl, refl, ground arith)
        | inr not_yet ↦ rw (many, drawn, not_yet) (refl, refl, refl, ground arith)
      ]
      | inr other ↦ rw (many, other) (refl, refl, refl, ground arith)
    ]
  ]

  -- Over all values of the random unsigned int, a tick preempts the running task for 429496730, one in
  -- ten, if more than one task is counted, and for none otherwise, whatever tickets they hold: `e r`
  -- is an outside state that delivers `r`, and no request to preempt stands.
  pub task_tick-share :
      (s : State K) (p : ℕ) (e : ℕ → K.Ext)
      → ((r : ℕ) → r < u32_mod → (K.get_random_u32 (e r)).0 ≡ r)
      → (s.tasks s.rq.curr).need_resched ≡ false
      → count_below u32_mod
          (λ r. ((task_tick_lottery (with_ext s (e r)) p).tasks s.rq.curr).need_resched)
        ≡ (if ltb 1 s.rq.ltr.nr_running then 429496730 else 0)
  task_tick-share s p e delivers free =
      count_below-ext u32_mod _ (λ r. ltb 1 s.rq.ltr.nr_running && (r % 10 == 0))
        (λ r lt. (task_tick-need_resched (with_ext s (e r)) p).3 ∙ rw (free, delivers r lt) refl)
      ∙ multiples_if (ltb 1 s.rq.ltr.nr_running)
