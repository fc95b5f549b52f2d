-- ===== src/Core/Members.antt =====
-- `enqueue_task` and `dequeue_task` of kernel/sched/core.c on the lottery queue.
use lottery_scheduler.Base.{
  ℕ, ◌≡◌, refl, ap, ◌∙◌, Bool, true, false, [], ◌∷◌, ◌++◌, has, remove, if◌then◌else◌, add32,
  Bool-cases, inl, inr,
}
use lottery_scheduler.Task.{test_bits, enqueue_noclock, enqueue_restore, dequeue_save}
use lottery_scheduler.Machine.{Kernel, State, members, with_ext, SameCounts}
use lottery_scheduler.Lottery.Hooks.{enqueue_task_lottery, dequeue_task_lottery}
use lottery_scheduler.Lottery.Queue.{IsCoherent, enqueue-IsCoherent, dequeue-IsCoherent}
use lottery_scheduler.Core.Clock.{
  SameQueue, SameQueue-refl, SameQueue-trans, SameQueue-ext, update_rq_clock,
  update_rq_clock-SameQueue,
}
use lottery_scheduler.Core.Hooks.{is_lottery, class_enqueue_task, class_dequeue_task}
use lottery_scheduler.Core.Queue.{
  enqueue_task, dequeue_task, sched_info_enqueue_task, sched_info_dequeue_task,
}
use lottery_scheduler.Core.Frame.{Frame, Frame-ext, Frame-trans, Frame-SameQueue}
use lottery_scheduler.Core.Keeps.{Frame-IsCoherent, Frame-members}

module _ {K : Kernel} where
  SameQueue-if :
      (b : Bool) {s t u : State K}
      → SameQueue s t
      → SameQueue s u
      → SameQueue s (if b then t else u)
  SameQueue-if true f g = f
  SameQueue-if false f g = g

  SameQueue-tick : (b : Bool) (s : State K) → SameQueue s (if b then s else update_rq_clock s)
  SameQueue-tick b s = SameQueue-if b (SameQueue-refl s) (update_rq_clock-SameQueue s)

  SameQueue-info_enqueue :
      (s : State K) (p flags : ℕ) → SameQueue s (sched_info_enqueue_task s p flags)
  unfolding sched_info_enqueue_task
  SameQueue-info_enqueue s p flags =
      SameQueue-if (test_bits flags enqueue_restore) (SameQueue-refl s) (
        SameQueue-trans
          (SameQueue-ext s (K.sched_info_enqueue p s.ext) (K.sched_info_enqueue-counts p s.ext))
          (SameQueue-ext (with_ext s (K.sched_info_enqueue p s.ext)) _
            (K.psi_enqueue-counts p _ _)))

  SameQueue-info_dequeue :
      (s : State K) (p flags : ℕ) → SameQueue s (sched_info_dequeue_task s p flags)
  unfolding sched_info_dequeue_task
  SameQueue-info_dequeue s p flags =
      SameQueue-if (test_bits flags dequeue_save) (SameQueue-refl s) (
        SameQueue-trans
          (SameQueue-ext s (K.sched_info_dequeue p s.ext) (K.sched_info_dequeue-counts p s.ext))
          (SameQueue-ext (with_ext s (K.sched_info_dequeue p s.ext)) _
            (K.psi_dequeue-counts p _ _)))

  -- The state that the class's hook sees: clocks and accounting have moved, no more.
  module _ (s : State K) (p flags : ℕ) where
    pub enqueue_task-ready :
        (u : State K) × SameQueue s u
        × (enqueue_task s p flags ≡ class_enqueue_task u (s.tasks p).sched_class p flags)
    unfolding enqueue_task
    enqueue_task-ready =
        let noclock = test_bits flags enqueue_noclock in
        let ticked = if noclock then s else update_rq_clock s in
        (
          sched_info_enqueue_task ticked p flags,
          SameQueue-trans (SameQueue-tick noclock s) (SameQueue-info_enqueue ticked p flags),
          refl,
        )

    pub dequeue_task-ready :
        (u : State K) × SameQueue s u
        × (dequeue_task s p flags ≡ class_dequeue_task u (s.tasks p).sched_class p flags)
    unfolding dequeue_task
    dequeue_task-ready =
        let noclock = test_bits flags enqueue_noclock in
        let ticked = if noclock then s else update_rq_clock s in
        (
          sched_info_dequeue_task ticked p flags,
          SameQueue-trans (SameQueue-tick noclock s) (SameQueue-info_dequeue ticked p flags),
          refl,
        )

    -- The two outcomes of a call of the class's hook.
    pub enqueue_task-if :
        (u : State K) × SameQueue s u
        × (enqueue_task s p flags ≡ (
            if is_lottery (s.tasks p).sched_class
            then enqueue_task_lottery u p flags
            else with_ext u ((K.ops (s.tasks p).sched_class).enqueue_task u.tasks p flags u.ext)))
    unfolding class_enqueue_task
    enqueue_task-if = enqueue_task-ready

    pub dequeue_task-if :
        (u : State K) × SameQueue s u
        × (dequeue_task s p flags ≡ (
            if is_lottery (s.tasks p).sched_class
            then dequeue_task_lottery u p flags
            else with_ext u ((K.ops (s.tasks p).sched_class).dequeue_task u.tasks p flags u.ext)))
    unfolding class_dequeue_task
    dequeue_task-if = dequeue_task-ready

    -- The hook leaves the CPU to the task that has it.
    pub dequeue_task-curr : (dequeue_task s p flags).rq.curr ≡ s.rq.curr
    unfolding dequeue_task_lottery
    dequeue_task-curr =
        let (u, same, e) = dequeue_task-if in
        elim (Bool-cases (is_lottery (s.tasks p).sched_class)) [
          | inl own ↦ rw (e, own) same.curr
          | inr other ↦ rw (e, other) same.curr
        ]

    pub dequeue_task-idle : (dequeue_task s p flags).rq.idle ≡ s.rq.idle
    unfolding dequeue_task_lottery
    dequeue_task-idle =
        let (u, same, e) = dequeue_task-if in
        elim (Bool-cases (is_lottery (s.tasks p).sched_class)) [
          | inl own ↦ rw (e, own) same.idle
          | inr other ↦ rw (e, other) same.idle
        ]

    -- It also leaves every task's `on_rq` alone.
    pub dequeue_task-on_rq : (q : ℕ) → ((dequeue_task s p flags).tasks q).on_rq ≡ (s.tasks q).on_rq
    unfolding dequeue_task_lottery
    dequeue_task-on_rq q =
        let (u, same, e) = dequeue_task-if in
        let kept = ap (λ m. (m q).on_rq) same.tasks in
        elim (Bool-cases (is_lottery (s.tasks p).sched_class)) [
          | inl own ↦ rw (e, own) kept
          | inr other ↦ rw (e, other) kept
        ]

    -- Neither hook writes to a task.
    pub dequeue_task-tasks : (dequeue_task s p flags).tasks ≡ s.tasks
    unfolding dequeue_task_lottery
    dequeue_task-tasks =
        let (u, same, e) = dequeue_task-if in
        elim (Bool-cases (is_lottery (s.tasks p).sched_class)) [
          | inl own ↦ rw (e, own) same.tasks
          | inr other ↦ rw (e, other) same.tasks
        ]

    pub enqueue_task-tasks : (enqueue_task s p flags).tasks ≡ s.tasks
    unfolding enqueue_task_lottery
    enqueue_task-tasks =
        let (u, same, e) = enqueue_task-if in
        elim (Bool-cases (is_lottery (s.tasks p).sched_class)) [
          | inl own ↦ rw (e, own) same.tasks
          | inr other ↦ rw (e, other) same.tasks
        ]

    module _ (other : is_lottery (s.tasks p).sched_class ≡ false) where
      pub Frame-enqueue_task : Frame s (enqueue_task s p flags)
      Frame-enqueue_task =
          let (u, same, e) = enqueue_task-if in
          rw (e, other) (Frame-trans (Frame-SameQueue same) (Frame-ext u _))

      pub Frame-dequeue_task : Frame s (dequeue_task s p flags)
      Frame-dequeue_task =
          let (u, same, e) = dequeue_task-if in
          rw (e, other) (Frame-trans (Frame-SameQueue same) (Frame-ext u _))

    module _ (own : is_lottery (s.tasks p).sched_class ≡ true) (inv : IsCoherent s) where
      -- A lottery task that is not in its coherent queue and is enqueued goes to the end of it. The
      -- queue stays coherent and counts one task more, no task is written to, and `rq->nr_running`
      -- and `rq->cfs.h_nr_running` do not count the task.
      pub enqueue_task-lottery :
          has p (members s) ≡ false
          → let t : State K = enqueue_task s p flags in
            IsCoherent t
            × (members t ≡ members s ++ p ∷ [])
            × (t.tasks ≡ s.tasks)
            × (t.rq.ltr.nr_running ≡ add32 s.rq.ltr.nr_running 1)
            × SameCounts K.nr_running K.h_nr_running s.ext t.ext
      unfolding enqueue_task_lottery
      enqueue_task-lottery out =
          let (u, same, e) = enqueue_task-if in
          let f = Frame-SameQueue same in
          let at : enqueue_task s p flags ≡ enqueue_task_lottery u p flags = e ∙ rw own in
          let (c, m) =
            enqueue-IsCoherent (Frame-IsCoherent f inv) p flags
              (ap (has p) (Frame-members f) ∙ out) in
          rw at (
            c,
            m ∙ ap (λ xs. xs ++ p ∷ []) (Frame-members f),
            same.tasks,
            ap (λ l. add32 l.nr_running 1) same.ltr,
            same.counts,
          )

      -- A lottery task that is dequeued leaves the lottery queue.
      pub dequeue_task-lottery :
          has p (members s) ≡ true
          → let t : State K = dequeue_task s p flags in
            IsCoherent t
            × (members t ≡ remove p (members s))
            × (t.tasks ≡ s.tasks)
            × SameCounts K.nr_running K.h_nr_running s.ext t.ext
      unfolding dequeue_task_lottery
      dequeue_task-lottery there =
          let (u, same, e) = dequeue_task-if in
          let f = Frame-SameQueue same in
          let at : dequeue_task s p flags ≡ dequeue_task_lottery u p flags = e ∙ rw own in
          let (c, m) =
            dequeue-IsCoherent (Frame-IsCoherent f inv) p flags
              (ap (has p) (Frame-members f) ∙ there) in
          rw at (c, m ∙ ap (remove p) (Frame-members f), same.tasks, same.counts)
