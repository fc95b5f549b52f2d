-- ===== src/Core/Schedule.antt =====
-- `__schedule` and `scheduler_tick` of kernel/sched/core.c.
use Prim.Native.Nat.{bit_and, bit_or}
use lottery_scheduler.Base.{
  ℕ, ◌*◌, ◌%◌, Bool, false, ◌&&◌, not, Option, ◌==◌, if◌then◌else◌, add32, add64, u32_mod, ◌-◌,
}
use mathlib.Core.Option
use lottery_scheduler.Task.{
  test_bits, dequeue_sleep, enqueue_noclock, task_running, task_uninterruptible, task_noload, write,
}
use lottery_scheduler.Machine.{Kernel, State, put_task, with_ext}
use lottery_scheduler.Core.Clock.{update_rq_clock}
use lottery_scheduler.Core.Hooks.{class_task_tick}
use lottery_scheduler.Core.Queue.{deactivate_task}
use lottery_scheduler.Core.Pick.{pick_next_task}

abbrev pf_frozen : ℕ
pf_frozen = 0x00010000

abbrev sm_none : ℕ
sm_none = 0x0

-- Whether a task that sleeps in `state` counts as uninterruptible load.
unfoldable pub contributes_to_load : (state flags : ℕ) → Bool
contributes_to_load state flags =
    test_bits state task_uninterruptible
    && (not (test_bits state task_noload) && not (test_bits flags pf_frozen))

module _ {K : Kernel} where
  -- `WRITE_ONCE(p->__state, …)`
  unfoldable pub set_state : State K → (p : ℕ) → ℕ → State K
  unfolding put_task write
  set_state s p v = put_task s p (record (s.tasks p) { state = v })

  -- `rq->nr_uninterruptible` and `rq->nr_iowait` in steps of one, up or down.
  unfoldable pub count_uninterruptible : Bool → (ℕ → ℕ → ℕ) → State K → State K
  count_uninterruptible b f s =
      if b
      then record s { rq = record (s.rq) { nr_uninterruptible = f s.rq.nr_uninterruptible 1 } }
      else s

  unfoldable pub count_iowait : Bool → (ℕ → ℕ → ℕ) → State K → State K
  count_iowait b f s =
      if b then record s { rq = record (s.rq) { nr_iowait = f s.rq.nr_iowait 1 } } else s

  -- `prev->sched_contributes_to_load = …`
  unfoldable pub set_contributes : State K → (prev : ℕ) → Bool → State K
  unfolding put_task write
  set_contributes s prev b =
      put_task s prev (record (s.tasks prev) { sched_contributes_to_load = b })

  -- `prev` blocks: its load accounting, then `deactivate_task`, then its iowait accounting.
  unfoldable pub block : State K → (prev : ℕ) → State K
  unfolding contributes_to_load set_contributes count_uninterruptible count_iowait
  block s prev =
      let load = contributes_to_load (s.tasks prev).state (s.tasks prev).flags in
      let counted = count_uninterruptible load add32 (set_contributes s prev load) in
      count_iowait (s.tasks prev).in_iowait add32
        (deactivate_task counted prev (bit_or dequeue_sleep enqueue_noclock))

  -- `!(sched_mode & SM_MASK_PREEMPT) && prev_state`: `prev` gives the CPU up by itself.
  unfoldable pub voluntary : State K → (sched_mode : ℕ) → Bool
  voluntary s mode = mode == sm_none && not ((s.tasks s.rq.curr).state == task_running)

  -- A task that gives the CPU up stays runnable if a signal is pending.
  unfoldable pub block_or_run : State K → (prev : ℕ) → State K
  unfolding set_state block
  block_or_run s prev =
      if K.signal_pending_state (s.tasks prev).state prev s.ext
      then set_state s prev task_running
      else block s prev

  -- The promotion of the clock flags and `update_rq_clock`.
  unfoldable pub schedule_clock : State K → State K
  schedule_clock s = update_rq_clock (record s {
    rq = record (s.rq) { clock_update_flags = s.rq.clock_update_flags * 2 % u32_mod };
  })

  -- `clear_tsk_need_resched(prev)` and `clear_preempt_need_resched()`
  unfoldable pub clear_need_resched : State K → (prev : ℕ) → State K
  unfolding put_task write
  clear_need_resched s prev =
      record (put_task s prev (record (s.tasks prev) { need_resched = false })) {
        preempt_need_resched = false;
      }

  -- `++*switch_count`
  unfoldable pub count_switch : State K → (prev : ℕ) → Bool → State K
  unfolding put_task write
  count_switch s prev of_own_will =
      let t = s.tasks prev in
      put_task s prev (
        if of_own_will
        then record t { nvcsw = add32 t.nvcsw 1 }
        else record t { nivcsw = add32 t.nivcsw 1 })

  -- `rq->clock_update_flags &= ~(RQCF_ACT_SKIP|RQCF_REQ_SKIP)`
  unfoldable pub clear_clock_flags : State K → State K
  clear_clock_flags s = record s {
    rq = record (s.rq) { clock_update_flags = bit_and s.rq.clock_update_flags (u32_mod - 1 - 3) };
  }

  -- The end of `__schedule`: the switch to `next`, with the one write of `context_switch` to the run
  -- queue, or the clean-up where `prev` goes on.
  unfoldable pub switch_to : State K → (prev next : ℕ) → Bool → State K
  unfolding count_switch clear_clock_flags
  switch_to s prev next of_own_will =
      if prev == next
      then clear_clock_flags s
      else clear_clock_flags (
          count_switch
            (record s {
              rq = record (s.rq) { curr = next; nr_switches = add64 s.rq.nr_switches 1 };
            })
            prev of_own_will)

  -- `__schedule(sched_mode)`; `none` is `BUG()` in `pick_next_task`.
  unfoldable pub schedule : State K → (sched_mode : ℕ) → Option (State K)
  unfolding voluntary block_or_run schedule_clock clear_need_resched switch_to
  schedule s mode =
      let prev = s.rq.curr in
      let of_own_will = voluntary s mode in
      let ticked = schedule_clock s in
      let (next, picked) =
        pick_next_task (if of_own_will then block_or_run ticked prev else ticked) prev in
      Option.map (λ n. switch_to (clear_need_resched picked prev) prev n of_own_will) next

  -- `scheduler_tick()`
  unfoldable pub scheduler_tick : State K → State K
  scheduler_tick s =
      let ticked = update_rq_clock (with_ext s (K.sched_clock_tick s.ext)) in
      let curr = ticked.rq.curr in
      let s' = class_task_tick ticked (ticked.tasks curr).sched_class curr in
      with_ext s' (K.calc_global_load_tick s'.ext)
