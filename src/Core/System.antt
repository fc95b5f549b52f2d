-- ===== src/Core/System.antt =====
-- The invariant of the scheduler core around the lottery class, and the operations of
-- kernel/sched/core.c that keep it: which tasks are in the lottery queue is told by their class and
-- their `on_rq`, and the class is told by the policy.
use Prim.Native.Nat.{bit_or}
use lottery_scheduler.Base.{
  List, ℕ, ◌≡◌, ap, sym, ◌∙◌, Bool, true, false, [], ◌∷◌, arith, ◌&&◌, has, ◌==◌, has-append,
  has-remove_iff, sum_by-ext, u32_mod, ◌%◌, if◌then◌else◌, Bool-cases, inl, inr,
}
use lottery_scheduler.Task.{
  Task, sched_lottery, task_on_rq_queued, task_on_rq_migrating, test_bits, dequeue_sleep,
  ltr_policy,
}
use lottery_scheduler.Machine.{Kernel, State, members}
use lottery_scheduler.Lottery.Queue.{tickets_of, IsCoherent}
use lottery_scheduler.Lottery.Draw.{AllLottery}
use lottery_scheduler.Core.Hooks.{is_lottery}
use lottery_scheduler.Core.Queue.{
  enqueue_task, dequeue_task, set_on_rq, activate_task, deactivate_task,
}
use lottery_scheduler.Core.Frame.{Frame}
use lottery_scheduler.Core.Keeps.{Frame-IsCoherent, Frame-members}
use lottery_scheduler.Core.Members.{
  enqueue_task-lottery, dequeue_task-lottery, Frame-enqueue_task, Frame-dequeue_task,
}

-- A task of the lottery class that is queued on the CPU.
abbrev pub queued_lottery : Task → Bool
queued_lottery t = is_lottery t.sched_class && (t.on_rq == task_on_rq_queued)

module _ {K : Kernel} where
  pub record IsSystem (s : State K) : Type 0 where
    pub coherent : IsCoherent s
    pub enrolled : (q : ℕ) → has q (members s) ≡ queued_lottery (s.tasks q)
    pub by_policy : (q : ℕ) → is_lottery (s.tasks q).sched_class ≡ ltr_policy (s.tasks q).policy

  pub Frame-IsSystem : {s t : State K} → Frame s t → IsSystem s → IsSystem t
  Frame-IsSystem f i = record {
    coherent = Frame-IsCoherent f i.coherent;
    enrolled = λ q. rw (Frame-members f) (ground (arith, i.enrolled q, f.tasks q));
    by_policy = λ q. ground (arith, i.by_policy q, f.tasks q);
  }

  -- A write of `on_rq` touches neither the queue nor any other field.
  set_on_rq-IsCoherent : {s : State K} (p v : ℕ) → IsCoherent s → IsCoherent (set_on_rq s p v)
  unfolding set_on_rq
  set_on_rq-IsCoherent {s} p v c = record {
    linked = c.linked;
    once = c.once;
    counted = c.counted;
    tallied =
        c.tallied
        ∙ ap (λ n. n % u32_mod)
            (sym (
              sum_by-ext (tickets_of (set_on_rq s p v).tasks) (tickets_of s.tasks) (members s)
                (λ q. ground arith)));
  }

  module _ {s : State K} (i : IsSystem s) (p flags : ℕ) where
    -- Activating a task that is not queued keeps the invariant; a lottery task is then in the
    -- lottery queue.
    activate-lottery :
        is_lottery (s.tasks p).sched_class ≡ true
        → ((s.tasks p).on_rq == task_on_rq_queued) ≡ false
        → IsSystem (set_on_rq (enqueue_task s p flags) p task_on_rq_queued)
    unfolding set_on_rq
    activate-lottery own off =
        let out : has p (members s) ≡ false = ground (arith, i.enrolled p) in
        let (c, m, same, _, _) = enqueue_task-lottery s p flags own i.coherent out in
        record {
          coherent = set_on_rq-IsCoherent p task_on_rq_queued c;
          enrolled =
              λ q. rw (m, has-append q (members s) (p ∷ []), same) (ground (arith, i.enrolled q));
          by_policy = λ q. rw same (ground (arith, i.by_policy q, i.by_policy p));
        }

    activate-other :
        is_lottery (s.tasks p).sched_class ≡ false
        → IsSystem (set_on_rq (enqueue_task s p flags) p task_on_rq_queued)
    unfolding set_on_rq
    activate-other other =
        let t : State K = enqueue_task s p flags in
        let j : IsSystem t = Frame-IsSystem (Frame-enqueue_task s p flags other) i in
        let f = Frame-enqueue_task s p flags other in
        record {
          coherent = set_on_rq-IsCoherent p task_on_rq_queued j.coherent;
          enrolled = λ q. ground (arith, j.enrolled q, j.enrolled p, f.tasks p);
          by_policy = λ q. ground (arith, j.by_policy q, j.by_policy p);
        }

    -- `deactivate_task` writes `on_rq` first. What is left is a queue that still holds the task.
    deactivate-lottery :
        (v : ℕ)
        → is_lottery (s.tasks p).sched_class ≡ true
        → ((s.tasks p).on_rq == task_on_rq_queued) ≡ true
        → (v == task_on_rq_queued) ≡ false
        → IsSystem (dequeue_task (set_on_rq s p v) p flags)
    unfolding set_on_rq
    deactivate-lottery v own on off =
        let u = set_on_rq s p v in
        let there : has p (members u) ≡ true = ground (arith, i.enrolled p) in
        let own' : is_lottery (u.tasks p).sched_class ≡ true = ground arith in
        let c = set_on_rq-IsCoherent {s = s} p v i.coherent in
        let (c', m, same, _) = dequeue_task-lottery u p flags own' c there in
        record {
          coherent = c';
          enrolled = λ q.
              rw (m, has-remove_iff q p (members s) i.coherent.once, same)
                (ground (arith, i.enrolled q));
          by_policy = λ q. rw same (ground (arith, i.by_policy q, i.by_policy p));
        }

    deactivate-other :
        (v : ℕ)
        → is_lottery (s.tasks p).sched_class ≡ false
        → IsSystem (dequeue_task (set_on_rq s p v) p flags)
    unfolding set_on_rq
    deactivate-other v other =
        let u : State K = set_on_rq s p v in
        let other' : is_lottery (u.tasks p).sched_class ≡ false = ground arith in
        Frame-IsSystem (Frame-dequeue_task u p flags other') (record {
          coherent = set_on_rq-IsCoherent {s = s} p v i.coherent;
          enrolled = λ q. ground (arith, i.enrolled q, i.enrolled p);
          by_policy = λ q. ground (arith, i.by_policy q, i.by_policy p);
        })

  -- Activating a task that is not queued keeps the invariant, whatever its class.
  pub activate_task-IsSystem :
      {s : State K}
      → IsSystem s
      → (p flags : ℕ) → ((s.tasks p).on_rq == task_on_rq_queued) ≡ false
      → IsSystem (activate_task s p flags)
  unfolding activate_task
  activate_task-IsSystem {s} i p flags off =
      let flags' = if (s.tasks p).on_rq == task_on_rq_migrating then bit_or flags 0x00 else flags in
      elim (Bool-cases (is_lottery (s.tasks p).sched_class)) [
        | inl own ↦ activate-lottery i p flags' own off
        | inr other ↦ activate-other i p flags' other
      ]

  -- Deactivating a queued task keeps the invariant, whatever its class.
  pub deactivate_task-IsSystem :
      {s : State K}
      → IsSystem s
      → (p flags : ℕ) → ((s.tasks p).on_rq == task_on_rq_queued) ≡ true
      → IsSystem (deactivate_task s p flags)
  unfolding deactivate_task
  deactivate_task-IsSystem {s} i p flags on =
      let v = if test_bits flags dequeue_sleep then 0 else task_on_rq_migrating in
      let off : (v == task_on_rq_queued) ≡ false = ground arith in
      elim (Bool-cases (is_lottery (s.tasks p).sched_class)) [
        | inl own ↦ deactivate-lottery i p flags v own on off
        | inr other ↦ deactivate-other i p flags v other
      ]

  -- In a system that meets the invariant, all in the lottery queue have the lottery policy.
  pub IsSystem-AllLottery : {s : State K} → IsSystem s → AllLottery s.tasks (members s)
  IsSystem-AllLottery {s} i = go (members s) (λ q h. ground (arith, i.enrolled q, i.by_policy q))
    where
      go :
          (xs : List ℕ)
          → ((q : ℕ) → has q xs ≡ true → (s.tasks q).policy ≡ sched_lottery)
          → AllLottery s.tasks xs
      go [] h = tt
      go (x ∷ xs) h = (h x (ground arith), go xs (λ q there. h q (ground arith)))
