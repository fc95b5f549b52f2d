-- ===== src/Core/Pick.antt =====
-- `__pick_next_task`, `put_prev_task` and `set_next_task`: kernel/sched/core.c and sched.h, with the
-- order of the classes from include/asm-generic/vmlinux.lds.h.
use lottery_scheduler.Base.{
  ℕ, Bool, ◌&&◌, Option, none, some, List, [], ◌∷◌, leb, ◌==◌, if◌then◌else◌,
}
use mathlib.Core.List.{reverse}
use lottery_scheduler.Task.{SchedClass, idle, fair, address, sched_data}
use lottery_scheduler.Machine.{Kernel, FairPick, nothing, retry_task, task, State, with_ext}
use lottery_scheduler.Core.Hooks.{class_pick_next_task, class_put_prev_task, class_set_next_task}

module _ {K : Kernel} where
  unfoldable pub put_prev_task : State K → (prev : ℕ) → State K
  put_prev_task s prev = class_put_prev_task s (s.tasks prev).sched_class prev

  unfoldable pub set_next_task : State K → (next : ℕ) → State K
  set_next_task s next = class_set_next_task s (s.tasks next).sched_class next Bool.false

  -- The loop over a list of classes; `none` is `BUG()`.
  unfoldable pub pick_from : List SchedClass → State K → Option ℕ × State K
  pick_from [] s = (none, s)
  pick_from (c ∷ cs) s =
      let (picked, s') = class_pick_next_task s c in
      elim picked [ some p ↦ (some p, s') | none ↦ pick_from cs s' ]

  -- `restart:` the classes from `sched_class_highest` down.
  unfoldable pub pick_by_class : State K → (prev : ℕ) → Option ℕ × State K
  pick_by_class s prev = pick_from (reverse sched_data) (put_prev_task s prev)

  -- The task of the fair class, or of the idle class where it has none.
  unfoldable pub pick_fair_or_idle : State K → (prev : ℕ) → FairPick × K.Ext → Option ℕ × State K
  pick_fair_or_idle s prev (task p, e) = (some p, with_ext s e)
  pick_fair_or_idle s prev (retry_task, e) = pick_by_class (with_ext s e) prev
  pick_fair_or_idle s prev (nothing, e) =
      class_pick_next_task (put_prev_task (with_ext s e) prev) idle

  unfoldable pub pick_next_task : State K → (prev : ℕ) → Option ℕ × State K
  unfolding pick_fair_or_idle
  pick_next_task s prev =
      if leb (address (s.tasks prev).sched_class) (address fair)
        && (K.nr_running s.ext == K.h_nr_running s.ext)
      then pick_fair_or_idle s prev (K.pick_next_task_fair s.tasks prev s.ext)
      else pick_by_class s prev
