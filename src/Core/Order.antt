-- ===== src/Core/Order.antt =====
-- Which class `__pick_next_task` of kernel/sched/core.c asks, and in which order.
use lottery_scheduler.Base.{
  ℕ, ◌≡◌, ◌≤◌, ◌≢◌, refl, ◌∙◌, ap, ap₂, sym, true, false, Option, none, some, List, [], ◌∷◌, arith,
  ◌&&◌, leb, ◌==◌,
}
use mathlib.Core.List.{reverse}
use lottery_scheduler.Task.{SchedClass, idle, fair, rt, dl, stop, lottery, address, sched_data}
use lottery_scheduler.Machine.{Kernel, FairPick, nothing, retry_task, task, State, with_ext}
use lottery_scheduler.Core.Hooks.{class_pick_next_task, class_put_prev_task}
use lottery_scheduler.Core.Pick.{
  put_prev_task, pick_from, pick_by_class, pick_fair_or_idle, pick_next_task,
}
use lottery_scheduler.Base.{get_elem?, ◌%◌}
use lottery_scheduler.Machine.{members}
use lottery_scheduler.Lottery.Draw.{IsDrawable, book, pick-book}
use lottery_scheduler.Core.Keeps.{Frame-IsDrawable, Frame-members}
use lottery_scheduler.Core.PickFrame.{Frame-pick_next_task}
use lottery_scheduler.Core.Frame.{Frame-put_prev_task}

-- The walk visits the classes from the highest address down; no class lies above the lottery class.
pub class_order :
    (reverse sched_data ≡ lottery ∷ stop ∷ dl ∷ rt ∷ fair ∷ idle ∷ [])
    × ((c : SchedClass) → address c ≤ address lottery)
unfolding sched_data address
class_order = (refl, λ c. ground arith)

module _ {K : Kernel} where
  put_prev_task-tasks : (s : State K) (p : ℕ) → (put_prev_task s p).tasks ≡ s.tasks
  unfolding put_prev_task class_put_prev_task
  put_prev_task-tasks s p = ground arith

  pick_from-head :
      (s : State K) (c : SchedClass) (cs : List SchedClass) {p : ℕ} {t : State K}
      → class_pick_next_task s c ≡ (some p, t)
      → pick_from (c ∷ cs) s ≡ (some p, t)
  unfolding pick_from
  pick_from-head s c cs e =
      ap
        (λ r. elim r.0 as (λ _. Option ℕ × State K) [
          | some q ↦ (some q, r.1)
          | none ↦ pick_from cs r.1
        ])
        e

  -- Where the previous task is not of the fair or idle class, or the counts differ, the lottery
  -- class is asked first: from a drawable queue, the owner of the drawn ticket is picked, whatever
  -- stop, deadline and realtime tasks are runnable.
  pub pick-lottery_first :
      (s : State K) (prev : ℕ)
      → IsDrawable s
      → (leb (address (s.tasks prev).sched_class) (address fair)
          && (K.nr_running s.ext == K.h_nr_running s.ext))
        ≡ false
      → let t : State K = put_prev_task s prev in
        (p : ℕ) × (get_elem?
            (book s.tasks (members s))
            ((K.get_random_u32 t.ext).0 % s.rq.ltr.total_tickets)
          ≡ some p)
        × ((pick_next_task s prev).0 ≡ some p)
  unfolding pick_next_task pick_by_class class_pick_next_task
  pick-lottery_first s prev d slow =
      let f = Frame-put_prev_task s prev in
      let t : State K = put_prev_task s prev in
      let (p, owner, e) = pick-book (Frame-IsDrawable f d) in
      let same : book t.tasks (members t) ≡ book s.tasks (members s) =
        ap₂ book (put_prev_task-tasks s prev) (Frame-members f) in
      let total : t.rq.ltr.total_tickets ≡ s.rq.ltr.total_tickets =
        ap (λ l. l.total_tickets) f.ltr in
      let first =
        ap (λ cs. pick_from cs t) class_order.0
        ∙ pick_from-head t lottery (stop ∷ dl ∷ rt ∷ fair ∷ idle ∷ []) e in
      let r = (K.get_random_u32 t.ext).0 in
      (
        p,
        ap₂ (λ xs n. get_elem? xs (r % n)) (sym same) (sym total) ∙ owner,
        rw slow (ap (λ a. a.0) first),
      )

  put_prev_task-log : (s : State K) (p : ℕ) → (put_prev_task s p).log ≡ s.log
  unfolding put_prev_task class_put_prev_task
  put_prev_task-log s p = ground arith

  pick_fair_or_idle-log :
      (s : State K) (prev : ℕ) (r : FairPick × K.Ext)
      → r.0 ≢ retry_task
      → (pick_fair_or_idle s prev r).1.log ≡ s.log
  unfolding pick_fair_or_idle class_pick_next_task
  pick_fair_or_idle-log s prev (task p, e) asked = refl
  pick_fair_or_idle-log s prev (retry_task, e) asked = absurd (asked refl)
  pick_fair_or_idle-log s prev (nothing, e) asked = put_prev_task-log (with_ext s e) prev

  -- The fast path leaves log and queue alone and takes the fair class's choice.
  pub fast-no_draw :
      (s : State K) (prev : ℕ)
      → address (s.tasks prev).sched_class ≤ address fair
      → K.nr_running s.ext ≡ K.h_nr_running s.ext
      → (K.pick_next_task_fair s.tasks prev s.ext).0 ≢ retry_task
      → let (answer, t) = pick_next_task s prev in
        (t.log ≡ s.log)
        × (t.rq.ltr ≡ s.rq.ltr)
        × (members t ≡ members s)
        × ((q : ℕ) → (K.pick_next_task_fair s.tasks prev s.ext).0 ≡ task q → answer ≡ some q)
  unfolding pick_next_task
  fast-no_draw s prev low counts asked =
      let f = Frame-pick_next_task s prev in
      let fast : (leb (address (s.tasks prev).sched_class) (address fair)
            && (K.nr_running s.ext == K.h_nr_running s.ext))
          ≡ true =
        ground arith in
      (
        rw fast (pick_fair_or_idle-log s prev (K.pick_next_task_fair s.tasks prev s.ext) asked),
        f.ltr,
        Frame-members f,
        λ q e. rw fast (fair_answer (K.pick_next_task_fair s.tasks prev s.ext) q e),
      )
    where
      fair_answer :
          (r : FairPick × K.Ext) (q : ℕ) → r.0 ≡ task q → (pick_fair_or_idle s prev r).0 ≡ some q
      fair_answer (task p, e) q h = cc
      fair_answer (retry_task, e) q h = cc
      fair_answer (nothing, e) q h = cc
