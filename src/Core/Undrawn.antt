-- ===== src/Core/Undrawn.antt =====
-- Lottery tasks that `enqueue_task` of kernel/sched/core.c enqueues and `__pick_next_task` passes over.
use lottery_scheduler.Base.{
  ℕ, ◌≡◌, ◌≢◌, ◌≤◌, ◌∙◌, refl, sym, ap, true, false, List, [], ◌∷◌, ◌++◌, arith, has, distinct,
  some, has-append,
}
use lottery_scheduler.Task.{address, fair}
use lottery_scheduler.Machine.{Kernel, State, SameCounts, members, retry_task, task}
use lottery_scheduler.Lottery.Queue.{IsCoherent}
use lottery_scheduler.Core.Hooks.{is_lottery}
use lottery_scheduler.Core.Queue.{enqueue_task}
use lottery_scheduler.Core.Pick.{pick_next_task}
use lottery_scheduler.Core.Members.{enqueue_task-lottery}
use lottery_scheduler.Core.Order.{fast-no_draw}

append-nil : (xs : List ℕ) → xs ++ [] ≡ xs
append-nil [] = refl
append-nil (x ∷ xs) = ap (λ zs. x ∷ zs) (append-nil xs)

append-snoc : (a : ℕ) (xs ys : List ℕ) → (xs ++ a ∷ []) ++ ys ≡ xs ++ a ∷ ys
append-snoc a [] ys = refl
append-snoc a (x ∷ xs) ys = ap (λ zs. x ∷ zs) (append-snoc a xs ys)

-- The number in the middle is not among those before it.
distinct-middle : (a : ℕ) (xs ys : List ℕ) → distinct (xs ++ a ∷ ys) ≡ true → has a xs ≡ false
distinct-middle a [] ys d = refl
distinct-middle a (x ∷ xs) ys d =
    ground (arith, d, distinct-middle a xs ys, has-append x xs (a ∷ ys))

module _ {K : Kernel} where
  -- These tasks, one after the other.
  abbrev pub enqueue_all : State K → List ℕ → State K
  enqueue_all s [] = s
  enqueue_all s (p ∷ ps) = enqueue_all (enqueue_task s p 0) ps

  -- The tasks stand at the end of the queue and are not counted.
  record Waits (s : State K) (ps : List ℕ) (u : State K) : Type 0 where
    queue : members u ≡ members s ++ ps
    tasks : u.tasks ≡ s.tasks
    counts : SameCounts K.nr_running K.h_nr_running s.ext u.ext

  enqueue_all-Waits :
      (s : State K) (ps : List ℕ)
      → IsCoherent s
      → ((p : ℕ) → has p ps ≡ true → is_lottery (s.tasks p).sched_class ≡ true)
      → distinct (members s ++ ps) ≡ true
      → Waits s ps (enqueue_all s ps)
  enqueue_all-Waits s [] c own once = record {
    queue = sym (append-nil (members s));
    tasks = refl;
    counts = (refl, refl);
  }
  enqueue_all-Waits s (p ∷ ps) c own once =
      let out : has p (members s) ≡ false = distinct-middle p (members s) ps once in
      let (c', m, same, _, counts) = enqueue_task-lottery s p 0 (own p (ground arith)) c out in
      let at_end : members (enqueue_task s p 0) ++ ps ≡ members s ++ p ∷ ps =
        ap (λ xs. xs ++ ps) m ∙ append-snoc p (members s) ps in
      let w : Waits (enqueue_task s p 0) ps (enqueue_all (enqueue_task s p 0) ps) =
        enqueue_all-Waits (enqueue_task s p 0) ps c' (λ q h. rw same (own q (ground (arith, h))))
          (ap distinct at_end ∙ once) in
      record {
        queue = w.queue ∙ at_end;
        tasks = w.tasks ∙ same;
        counts = (w.counts.0 ∙ counts.0, w.counts.1 ∙ counts.1);
      }

  -- However many lottery tasks are enqueued, none of them queued before or twice in the list, if the
  -- previous task is of the fair or idle class and all counted tasks were fair before, then
  -- __pick_next_task draws no lottery, leaves them all waiting, and takes the fair class's choice if
  -- it has one, unless the fair class asks for a retry.
  pub pick-no_draw :
      (s : State K) (ps : List ℕ) (prev : ℕ)
      → IsCoherent s
      → ((p : ℕ) → has p ps ≡ true → is_lottery (s.tasks p).sched_class ≡ true)
      → distinct (members s ++ ps) ≡ true
      → address (s.tasks prev).sched_class ≤ address fair
      → K.nr_running s.ext ≡ K.h_nr_running s.ext
      → (K.pick_next_task_fair (enqueue_all s ps).tasks prev (enqueue_all s ps).ext).0 ≢ retry_task
      → let u : State K = enqueue_all s ps in
        let (answer, t) = pick_next_task u prev in
        (t.log ≡ u.log)
        × (members t ≡ members s ++ ps)
        × ((q : ℕ) → (K.pick_next_task_fair u.tasks prev u.ext).0 ≡ task q → answer ≡ some q)
  pick-no_draw s ps prev c own once low counts asked =
      let u : State K = enqueue_all s ps in
      let w = enqueue_all-Waits s ps c own once in
      let f = fast-no_draw u prev (rw w.tasks low) (w.counts.0 ∙ counts ∙ sym w.counts.1) asked in
      (f.0, f.2 ∙ w.queue, f.3)
