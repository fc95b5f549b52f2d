-- ===== src/Core/Running.antt =====
-- `__schedule` of kernel/sched/core.c keeps the invariant, and the task that it puts on the CPU is
-- queued.
use lottery_scheduler.Base.{
  ℕ, ◌≡◌, refl, ap, sym, ◌∙◌, false, Option, none, some, List, [], ◌∷◌, ◌++◌, arith, ◌&&◌, ◌==◌,
  leb, Bool-cases, inl, inr,
}
use mathlib.Core.List.{reverse}
use mathlib.Core.Option.{some-injective}
use lottery_scheduler.Task.{
  Tasks, SchedClass, fair, idle, lottery, stop, dl, rt, task_on_rq_queued, address, sched_data,
  class_eq,
}
use lottery_scheduler.Machine.{Kernel, FairPick, nothing, retry_task, task, State, with_ext}
use lottery_scheduler.Lottery.Hooks.{pick_next_task_lottery}
use lottery_scheduler.Lottery.Draw.{pick-total}
use lottery_scheduler.Core.Hooks.{is_lottery, class_pick_next_task}
use lottery_scheduler.Core.Pick.{
  put_prev_task, pick_from, pick_by_class, pick_fair_or_idle, pick_next_task,
}
use lottery_scheduler.Core.Frame.{Frame, Frame-trans, Frame-ext, Frame-put_prev_task}
use lottery_scheduler.Core.PickFrame.{Frame-class_pick}
use lottery_scheduler.Core.System.{IsSystem, Frame-IsSystem}

-- What the other classes promise: a task that they pick is queued, and the idle class has its task.
pub record PicksQueued (K : Kernel) (idle_task : ℕ) : Type 0 where
  pub class_pick :
      (c : SchedClass) (m : Tasks) (e : K.Ext) (p : ℕ)
      → class_eq c idle ≡ false
      → ((K.ops c).pick_next_task m e).0 ≡ some p
      → (m p).on_rq ≡ task_on_rq_queued
  pub idle_pick : (m : Tasks) (e : K.Ext) → ((K.ops idle).pick_next_task m e).0 ≡ some idle_task
  pub fair_pick :
      (m : Tasks) (prev : ℕ) (e : K.Ext) (p : ℕ)
      → (K.pick_next_task_fair m prev e).0 ≡ task p
      → (m p).on_rq ≡ task_on_rq_queued

module _ {K : Kernel} {idle_task : ℕ} (promise : PicksQueued K idle_task) where
  abbrev OnRq : State K → ℕ → Type 0
  OnRq s p = (s.tasks p).on_rq ≡ task_on_rq_queued

  pick_lottery-OnRq :
      (s : State K) → IsSystem s → (p : ℕ) → (pick_next_task_lottery s).0 ≡ some p → OnRq s p
  pick_lottery-OnRq s i p e = elim (pick-total i.coherent) [
    | inl (_, q) ↦ ground (arith, ap (λ r. r.0) q)
    | inr (q, _, there, e') ↦ ground (arith, i.enrolled q)
  ]

  promise-OnRq :
      (c : SchedClass) (m : Tasks) (e : K.Ext) (p : ℕ)
      → (m idle_task).on_rq ≡ task_on_rq_queued
      → ((K.ops c).pick_next_task m e).0 ≡ some p
      → (m p).on_rq ≡ task_on_rq_queued
  promise-OnRq idle m e p on h =
      ap (λ q. (m q).on_rq) (some-injective _ _ (sym h ∙ promise.idle_pick m e)) ∙ on
  promise-OnRq fair m e p on h = promise.class_pick fair m e p refl h
  promise-OnRq rt m e p on h = promise.class_pick rt m e p refl h
  promise-OnRq dl m e p on h = promise.class_pick dl m e p refl h
  promise-OnRq stop m e p on h = promise.class_pick stop m e p refl h
  promise-OnRq lottery m e p on h = promise.class_pick lottery m e p refl h

  class_pick-OnRq :
      (s : State K) (c : SchedClass)
      → IsSystem s
      → OnRq s idle_task
      → (p : ℕ) → (class_pick_next_task s c).0 ≡ some p
      → OnRq s p
  unfolding class_pick_next_task
  class_pick-OnRq s c i on p e = elim (Bool-cases (is_lottery c)) [
    | inl own ↦ pick_lottery-OnRq s i p (rw own at e)
    | inr other ↦ promise-OnRq c s.tasks s.ext p on (rw other at e)
  ]

  pick_from-OnRq :
      (cs : List SchedClass) (s : State K)
      → IsSystem s
      → OnRq s idle_task
      → (p : ℕ) → (pick_from cs s).0 ≡ some p
      → OnRq s p
  unfolding pick_from
  pick_from-OnRq [] s i on p e = cc
  pick_from-OnRq (c ∷ cs) s i on p e =
      by_answer (class_pick_next_task s c) (Frame-class_pick s c) (class_pick-OnRq s c i on p)
        (λ t j o. pick_from-OnRq cs t j o p) e
    where
      by_answer :
          (r : Option ℕ × State K)
          → Frame s r.1
          → (r.0 ≡ some p → OnRq s p)
          → ((t : State K) → IsSystem t → OnRq t idle_task → (pick_from cs t).0 ≡ some p → OnRq t p)
          → (elim r.0 as (λ _. Option ℕ × State K) [
            | some q ↦ (some q, r.1)
            | none ↦ pick_from cs r.1
          ]).0
            ≡ some p
          → OnRq s p
      by_answer (some q, t) f here rest h = here h
      by_answer (none, t) f here rest h =
          sym ((f.tasks p).on_rq) ∙ rest t (Frame-IsSystem f i) ((f.tasks idle_task).on_rq ∙ on) h

  pick_by_class-OnRq :
      (s : State K) (prev : ℕ)
      → IsSystem s
      → OnRq s idle_task
      → (p : ℕ) → (pick_by_class s prev).0 ≡ some p
      → OnRq s p
  unfolding pick_by_class
  pick_by_class-OnRq s prev i on p e =
      let f = Frame-put_prev_task s prev in
      sym ((f.tasks p).on_rq)
      ∙ pick_from-OnRq (reverse sched_data) (put_prev_task s prev) (Frame-IsSystem f i)
          ((f.tasks idle_task).on_rq ∙ on) p e

  pick_fair_or_idle-OnRq :
      (s : State K) (prev : ℕ)
      → IsSystem s
      → OnRq s idle_task
      → (r : FairPick × K.Ext) → ((p : ℕ) → r.0 ≡ task p → OnRq s p)
      → (p : ℕ) → (pick_fair_or_idle s prev r).0 ≡ some p
      → OnRq s p
  unfolding pick_fair_or_idle
  pick_fair_or_idle-OnRq s prev i on (task q, e) fair_ok p h = fair_ok p (ground arith)
  pick_fair_or_idle-OnRq s prev i on (retry_task, e) fair_ok p h =
      pick_by_class-OnRq (with_ext s e) prev (Frame-IsSystem (Frame-ext s e) i) on p h
  pick_fair_or_idle-OnRq s prev i on (nothing, e) fair_ok p h =
      let f = Frame-trans (Frame-ext s e) (Frame-put_prev_task (with_ext s e) prev) in
      sym ((f.tasks p).on_rq)
      ∙ class_pick-OnRq _ idle (Frame-IsSystem f i) ((f.tasks idle_task).on_rq ∙ on) p h

  -- Whichever class answers, the picked task is queued, if the invariant holds, the idle task is
  -- queued and the other classes keep their promise.
  pub pick_next_task-OnRq :
      (s : State K) (prev : ℕ)
      → IsSystem s
      → OnRq s idle_task
      → (p : ℕ) → (pick_next_task s prev).0 ≡ some p
      → (s.tasks p).on_rq ≡ task_on_rq_queued
  unfolding pick_next_task
  pick_next_task-OnRq s prev i on p e =
      elim (Bool-cases (
        leb (address (s.tasks prev).sched_class) (address fair)
        && (K.nr_running s.ext == K.h_nr_running s.ext))) [
          | inl fast ↦
              pick_fair_or_idle-OnRq s prev i on (K.pick_next_task_fair s.tasks prev s.ext)
                (promise.fair_pick s.tasks prev s.ext) p (rw fast at e)
          | inr slow ↦ pick_by_class-OnRq s prev i on p (rw slow at e)
        ]

  abbrev Answers : Option ℕ × State K → Type 0
  Answers r = (p : ℕ) × (r.0 ≡ some p)

  class_pick_idle : (s : State K) → Answers (class_pick_next_task s idle)
  unfolding class_pick_next_task
  class_pick_idle s = (idle_task, promise.idle_pick s.tasks s.ext)

  -- A walk that ends at the idle class finds a task.
  pick_from-Answers : (cs : List SchedClass) (s : State K) → Answers (pick_from (cs ++ idle ∷ []) s)
  unfolding pick_from
  pick_from-Answers [] s = by_answer (class_pick_next_task s idle) (class_pick_idle s)
    where
      by_answer :
          (r : Option ℕ × State K)
          → Answers r
          → Answers (elim r.0 as (λ _. Option ℕ × State K) [
            | some q ↦ (some q, r.1)
            | none ↦ (none, r.1)
          ])
      by_answer (some q, t) found = (q, refl)
      by_answer (none, t) found = found
  pick_from-Answers (c ∷ cs) s = by_answer (class_pick_next_task s c) (pick_from-Answers cs)
    where
      by_answer :
          (r : Option ℕ × State K)
          → ((t : State K) → Answers (pick_from (cs ++ idle ∷ []) t))
          → Answers (elim r.0 as (λ _. Option ℕ × State K) [
            | some q ↦ (some q, r.1)
            | none ↦ pick_from (cs ++ idle ∷ []) r.1
          ])
      by_answer (some q, t) rest = (q, refl)
      by_answer (none, t) rest = rest t

  pick_by_class-Answers : (s : State K) (prev : ℕ) → Answers (pick_by_class s prev)
  unfolding pick_by_class sched_data
  pick_by_class-Answers s prev =
      pick_from-Answers (lottery ∷ stop ∷ dl ∷ rt ∷ fair ∷ []) (put_prev_task s prev)

  -- `__pick_next_task` never reaches its `BUG()`.
  pub pick_next_task-Answers : (s : State K) (prev : ℕ) → Answers (pick_next_task s prev)
  unfolding pick_next_task pick_fair_or_idle
  pick_next_task-Answers s prev =
      elim (Bool-cases (
        leb (address (s.tasks prev).sched_class) (address fair)
        && (K.nr_running s.ext == K.h_nr_running s.ext))) [
          | inl fast ↦ rw fast (by_pick (K.pick_next_task_fair s.tasks prev s.ext))
          | inr slow ↦ rw slow (pick_by_class-Answers s prev)
        ]
    where
      by_pick : (r : FairPick × K.Ext) → Answers (pick_fair_or_idle s prev r)
      by_pick (task q, e) = (q, refl)
      by_pick (retry_task, e) = pick_by_class-Answers (with_ext s e) prev
      by_pick (nothing, e) = class_pick_idle (put_prev_task (with_ext s e) prev)
