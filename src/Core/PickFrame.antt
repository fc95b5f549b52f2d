-- ===== src/Core/PickFrame.antt =====
-- `__pick_next_task` of kernel/sched/core.c changes nothing of the lottery queue.
use lottery_scheduler.Base.{ℕ, Option, none, some, List, [], ◌∷◌, ◌&&◌, leb, ◌==◌}
use mathlib.Core.List.{reverse}
use lottery_scheduler.Task.{SchedClass, idle, fair, address, sched_data}
use lottery_scheduler.Machine.{Kernel, FairPick, nothing, retry_task, task, State, with_ext}
use lottery_scheduler.Core.Hooks.{is_lottery, class_pick_next_task}
use lottery_scheduler.Core.Pick.{pick_from, pick_by_class, pick_fair_or_idle, pick_next_task}
use lottery_scheduler.Core.Frame.{
  Frame, Frame-refl, Frame-trans, Frame-ext, Frame-if_pair, Frame-put_prev_task, Frame-pick_lottery,
}

module _ {K : Kernel} where
  -- Picking changes nothing of the lottery queue, whichever class answers.
  pub Frame-class_pick : (s : State K) (c : SchedClass) → Frame s (class_pick_next_task s c).1
  unfolding class_pick_next_task
  Frame-class_pick s c =
      Frame-if_pair (is_lottery c) _ _ (Frame-pick_lottery s)
        (Frame-ext s ((K.ops c).pick_next_task s.tasks s.ext).1)

  Frame-pick_from : (cs : List SchedClass) (s : State K) → Frame s (pick_from cs s).1
  unfolding pick_from
  Frame-pick_from [] s = Frame-refl s
  Frame-pick_from (c ∷ cs) s =
      by_answer (class_pick_next_task s c) (Frame-class_pick s c) (λ t. Frame-pick_from cs t)
    where
      by_answer :
          (r : Option ℕ × State K)
          → Frame s r.1
          → ((t : State K) → Frame t (pick_from cs t).1)
          → Frame s
              (elim r.0 as (λ _. Option ℕ × State K) [
                | some p ↦ (some p, r.1)
                | none ↦ pick_from cs r.1
              ]).1
      by_answer (some p, t) f rest = f
      by_answer (none, t) f rest = Frame-trans f (rest t)

  Frame-pick_by_class : (s : State K) (prev : ℕ) → Frame s (pick_by_class s prev).1
  unfolding pick_by_class
  Frame-pick_by_class s prev =
      Frame-trans (Frame-put_prev_task s prev) (Frame-pick_from (reverse sched_data) _)

  Frame-pick_fair_or_idle :
      (s : State K) (prev : ℕ) (r : FairPick × K.Ext) → Frame s (pick_fair_or_idle s prev r).1
  unfolding pick_fair_or_idle
  Frame-pick_fair_or_idle s prev (task p, e) = Frame-ext s e
  Frame-pick_fair_or_idle s prev (retry_task, e) =
      Frame-trans (Frame-ext s e) (Frame-pick_by_class (with_ext s e) prev)
  Frame-pick_fair_or_idle s prev (nothing, e) =
      Frame-trans (Frame-ext s e)
        (Frame-trans (Frame-put_prev_task (with_ext s e) prev) (Frame-class_pick _ idle))

  pub Frame-pick_next_task : (s : State K) (prev : ℕ) → Frame s (pick_next_task s prev).1
  unfolding pick_next_task
  Frame-pick_next_task s prev =
      Frame-if_pair
        (leb (address (s.tasks prev).sched_class) (address fair)
          && (K.nr_running s.ext == K.h_nr_running s.ext))
        _ _ (Frame-pick_fair_or_idle s prev (K.pick_next_task_fair s.tasks prev s.ext))
        (Frame-pick_by_class s prev)
