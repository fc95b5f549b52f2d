-- ===== src/Core/Switch.antt =====
-- `__schedule` and `scheduler_tick` of kernel/sched/core.c keep the invariant of the core.
use lottery_scheduler.Base.{
  ℕ, ◌≡◌, ◌≢◌, refl, ap, sym, ◌∙◌, Bool, true, Option, none, some, arith, ◌==◌, if◌then◌else◌,
  Bool-cases, inl, inr, add64,
}
use mathlib.Core.Option
use mathlib.Core.Option.{some-injective}
use lottery_scheduler.Task.{task_on_rq_queued, task_running}
use lottery_scheduler.Machine.{Kernel, State, with_ext}
use lottery_scheduler.Core.Clock.{update_rq_clock}
use lottery_scheduler.Core.Hooks.{class_task_tick}
use lottery_scheduler.Core.Pick.{pick_next_task}
use lottery_scheduler.Core.Schedule.{
  voluntary, block_or_run, schedule_clock, clear_need_resched, clear_clock_flags, switch_to,
  schedule, scheduler_tick,
}
use lottery_scheduler.Core.Frame.{
  Frame, Frame-refl, Frame-trans, Frame-ext, Frame-rest, Frame-update_rq_clock, Frame-task_tick,
}
use lottery_scheduler.Core.PickFrame.{Frame-pick_next_task}
use lottery_scheduler.Core.System.{IsSystem, Frame-IsSystem}
use lottery_scheduler.Core.Running.{PicksQueued, pick_next_task-OnRq, pick_next_task-Answers}
use lottery_scheduler.Core.Blocking.{
  Frame-set_state, Frame-schedule_clock, Frame-clear_need_resched, Frame-count_switch,
  block-IsSystem, block-curr, block-idle, block-on_rq,
}

module _ {K : Kernel} where
  -- What `__schedule` has before it picks, where the task at `q` does not block.
  record IsReady (q : ℕ) (s t : State K) : Type 0 where
    system : IsSystem t
    curr : t.rq.curr ≡ s.rq.curr
    idle : t.rq.idle ≡ s.rq.idle
    on_rq : (t.tasks q).on_rq ≡ (s.tasks q).on_rq

  block_or_run-IsReady :
      {s : State K} (q : ℕ)
      → IsSystem s
      → (p : ℕ) → ((s.tasks p).on_rq == task_on_rq_queued) ≡ true
      → q ≢ p
      → IsReady q s (block_or_run s p)
  unfolding block_or_run
  block_or_run-IsReady {s} q i p on other =
      elim (Bool-cases (K.signal_pending_state (s.tasks p).state p s.ext)) [
        | inl pending ↦ rw pending (record {
          system = Frame-IsSystem (Frame-set_state s p task_running) i;
          curr = (Frame-set_state s p task_running).curr;
          idle = (Frame-set_state s p task_running).idle;
          on_rq = ((Frame-set_state s p task_running).tasks q).on_rq;
        })
        | inr none_pending ↦ rw none_pending (record {
          system = block-IsSystem i p on;
          curr = block-curr s p;
          idle = block-idle s p;
          on_rq = block-on_rq s p q other;
        })
      ]

  -- The switch to a queued task keeps the invariant.
  switch_to-IsSystem :
      {s : State K}
      → IsSystem s
      → (prev next : ℕ) (b : Bool)
      → IsSystem (switch_to s prev next b)
        × (prev ≡ s.rq.curr → (switch_to s prev next b).rq.curr ≡ next)
        × ((q : ℕ) → ((switch_to s prev next b).tasks q).on_rq ≡ (s.tasks q).on_rq)
        × ((switch_to s prev next b).rq.idle ≡ s.rq.idle)
  unfolding switch_to clear_clock_flags
  switch_to-IsSystem {s} i prev next b = elim (Bool-cases (prev == next)) [
    | inl same ↦ rw same (
      Frame-IsSystem (Frame-rest (Frame-refl s) refl refl refl refl refl) i,
      (λ e. ground arith),
      (λ q. refl),
      refl,
    )
    | inr other ↦
        let u : State K = record s {
          rq = record (s.rq) { curr = next; nr_switches = add64 s.rq.nr_switches 1 };
        } in
        let c = Frame-count_switch u prev b in
        let f = Frame-rest c refl refl refl refl refl in
        let j : IsSystem u = record {
          coherent = record {
            linked = i.coherent.linked;
            once = i.coherent.once;
            counted = i.coherent.counted;
            tallied = i.coherent.tallied;
          };
          enrolled = i.enrolled;
          by_policy = i.by_policy;
        } in
        rw other (Frame-IsSystem f j, (λ e. f.curr), (λ q. (f.tasks q).on_rq), f.idle)
  ]

  -- What `__schedule` picks from: the previous task has blocked, was woken by a signal, or stays.
  abbrev before_pick : State K → (mode : ℕ) → State K
  before_pick s mode =
      if voluntary s mode then block_or_run (schedule_clock s) s.rq.curr else schedule_clock s

  before_pick-IsReady :
      {s : State K} (q mode : ℕ)
      → IsSystem s
      → (s.tasks s.rq.curr).on_rq ≡ task_on_rq_queued
      → (voluntary s mode ≡ true → q ≢ s.rq.curr)
      → IsReady q s (before_pick s mode)
  before_pick-IsReady {s} q mode i on stays =
      let f = Frame-schedule_clock s in
      let on' : (((schedule_clock s).tasks s.rq.curr).on_rq == task_on_rq_queued) ≡ true =
        ground (arith, f.tasks s.rq.curr) in
      elim (Bool-cases (voluntary s mode)) [
        | inl own_will ↦
            let r = block_or_run-IsReady q (Frame-IsSystem f i) s.rq.curr on' (stays own_will) in
            rw own_will (record {
              system = r.system;
              curr = r.curr ∙ f.curr;
              idle = r.idle ∙ f.idle;
              on_rq = r.on_rq ∙ (f.tasks q).on_rq;
            })
        | inr preempted ↦ rw preempted (record {
          system = Frame-IsSystem f i;
          curr = f.curr;
          idle = f.idle;
          on_rq = (f.tasks q).on_rq;
        })
      ]

  -- All that `__schedule` leaves: also the idle task, and that it is queued.
  pub schedule_lem :
      {s : State K}
      → PicksQueued K s.rq.idle
      → (mode : ℕ) → IsSystem s
      → (s.tasks s.rq.curr).on_rq ≡ task_on_rq_queued
      → (s.tasks s.rq.idle).on_rq ≡ task_on_rq_queued
      → (voluntary s mode ≡ true → s.rq.idle ≢ s.rq.curr)
      → (t : State K) × (schedule s mode ≡ some t)
        × IsSystem t
        × ((t.tasks t.rq.curr).on_rq ≡ task_on_rq_queued)
        × (t.rq.idle ≡ s.rq.idle)
        × ((t.tasks s.rq.idle).on_rq ≡ task_on_rq_queued)
  unfolding schedule
  schedule_lem {s} promise mode i on idle_on stays =
      let ready = before_pick-IsReady s.rq.idle mode i on stays in
      by_answer ready (pick_next_task (before_pick s mode) s.rq.curr)
        (Frame-pick_next_task (before_pick s mode) s.rq.curr)
        (λ n.
          pick_next_task-OnRq promise (before_pick s mode) s.rq.curr ready.system
            (ready.on_rq ∙ idle_on) n)
        (pick_next_task-Answers promise (before_pick s mode) s.rq.curr)
    where
      after : State K → ℕ → State K
      after u n = switch_to (clear_need_resched u s.rq.curr) s.rq.curr n (voluntary s mode)

      by_answer :
          IsReady s.rq.idle s (before_pick s mode)
          → (picked : Option ℕ × State K) → Frame (before_pick s mode) picked.1
          → ((n : ℕ) → picked.0 ≡ some n → ((before_pick s mode).tasks n).on_rq ≡ task_on_rq_queued)
          → (p : ℕ) × (picked.0 ≡ some p)
          → (t : State K) × (Option.map (after picked.1) picked.0 ≡ some t)
            × IsSystem t
            × ((t.tasks t.rq.curr).on_rq ≡ task_on_rq_queued)
            × (t.rq.idle ≡ s.rq.idle)
            × ((t.tasks s.rq.idle).on_rq ≡ task_on_rq_queued)
      by_answer ready (none, u) g queued (p, h) = cc
      by_answer ready (some n, u) g queued found =
          let f = Frame-trans g (Frame-clear_need_resched u s.rq.curr) in
          let (j, switched, kept, same_idle) =
            switch_to-IsSystem (Frame-IsSystem f ready.system) s.rq.curr n (voluntary s mode) in
          let there = switched (sym (f.curr ∙ ready.curr)) in
          let runs =
            ap (λ q. ((after u n).tasks q).on_rq) there
            ∙ kept n
            ∙ (f.tasks n).on_rq
            ∙ queued n refl in
          let idles = kept s.rq.idle ∙ (f.tasks s.rq.idle).on_rq ∙ ready.on_rq ∙ idle_on in
          (after u n, refl, j, runs, same_idle ∙ f.idle ∙ ready.idle, idles)

  -- `__schedule` ends without its `BUG()`, keeps the invariant, and leaves a queued task on the CPU,
  -- whether the previous task blocks, is woken by a signal or is preempted: if the previous task
  -- and the idle task are queued, the idle task does not block, and the other classes keep their
  -- promise.
  pub schedule-IsSystem :
      {s : State K}
      → PicksQueued K s.rq.idle
      → (mode : ℕ) → IsSystem s
      → (s.tasks s.rq.curr).on_rq ≡ task_on_rq_queued
      → (s.tasks s.rq.idle).on_rq ≡ task_on_rq_queued
      → (voluntary s mode ≡ true → s.rq.idle ≢ s.rq.curr)
      → (t : State K) × (schedule s mode ≡ some t)
        × IsSystem t
        × ((t.tasks t.rq.curr).on_rq ≡ task_on_rq_queued)
  schedule-IsSystem promise mode i on idle_on stays =
      let (t, e, j, runs, _, _) = schedule_lem promise mode i on idle_on stays in (t, e, j, runs)

  pub Frame-scheduler_tick : (s : State K) → Frame s (scheduler_tick s)
  unfolding scheduler_tick
  Frame-scheduler_tick s =
      let ticked = update_rq_clock (with_ext s (K.sched_clock_tick s.ext)) in
      let curr = ticked.rq.curr in
      let t = class_task_tick ticked (ticked.tasks curr).sched_class curr in
      Frame-trans (Frame-trans (Frame-ext s _) (Frame-update_rq_clock _)) (
        Frame-trans (Frame-task_tick ticked (ticked.tasks curr).sched_class curr)
          (Frame-ext t (K.calc_global_load_tick t.ext)))

  -- A tick keeps the invariant, and the task on the CPU.
  pub scheduler_tick-IsSystem :
      {s : State K}
      → IsSystem s
      → IsSystem (scheduler_tick s) × ((scheduler_tick s).rq.curr ≡ s.rq.curr)
  scheduler_tick-IsSystem {s} i = let f = Frame-scheduler_tick s in (Frame-IsSystem f i, f.curr)
