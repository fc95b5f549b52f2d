-- ===== src/Core/Requeue.antt =====
-- Taking a queued task out of its queue, changing it and putting it back, as `set_user_nice` of
-- kernel/sched/core.c does, keeps the invariant of the core.
use lottery_scheduler.Base.{
  ℕ, ◌≡◌, Bool, true, false, [], ◌∷◌, arith, ◌||◌, has, ◌==◌, has-append, has-remove_iff,
  Bool-cases, inl, inr, if◌then◌else◌, ℤ, eqb_ℤ, ltb_ℤ,
}
use lottery_scheduler.Task.{dl_policy, rt_policy, task_on_rq_queued, ltr_policy}
use lottery_scheduler.Machine.{Kernel, State, members}
use lottery_scheduler.Lottery.Queue.{IsCoherent}
use lottery_scheduler.Core.Clock.{update_rq_clock}
use lottery_scheduler.Core.Hooks.{is_lottery, class_prio_changed}
use lottery_scheduler.Core.Queue.{enqueue_task, dequeue_task}
use lottery_scheduler.Core.Pick.{put_prev_task, set_next_task}
use lottery_scheduler.Core.Load.{set_load_weight}
use lottery_scheduler.Core.Prio.{effective_prio, task_nice}
use lottery_scheduler.Core.Nice.{set_static_prio, set_nice, renice, set_user_nice}
use lottery_scheduler.Core.Frame.{
  Frame, Frame-refl, Frame-trans, Frame-if, Frame-put_task, Frame-set_load_weight,
  Frame-update_rq_clock, Frame-put_prev_task, Frame-set_next_task, Frame-prio_changed,
}
use lottery_scheduler.Core.Keeps.{Frame-IsCoherent, Frame-members}
use lottery_scheduler.Core.Members.{
  enqueue_task-lottery, dequeue_task-lottery, Frame-enqueue_task, Frame-dequeue_task,
}
use lottery_scheduler.Core.System.{IsSystem, Frame-IsSystem, queued_lottery}

module _ {K : Kernel} where
  -- The invariant while the task `p` is out of its queue, with its `on_rq` still set.
  pub record IsOut (p : ℕ) (s : State K) : Type 0 where
    pub coherent : IsCoherent s
    pub absent : has p (members s) ≡ false
    pub enrolled : (q : ℕ) → (q == p) ≡ false → has q (members s) ≡ queued_lottery (s.tasks q)
    pub by_policy : (q : ℕ) → is_lottery (s.tasks q).sched_class ≡ ltr_policy (s.tasks q).policy
    pub queued : ((s.tasks p).on_rq == task_on_rq_queued) ≡ true

  pub Frame-IsOut : {p : ℕ} {s t : State K} → Frame s t → IsOut p s → IsOut p t
  Frame-IsOut {p} f o = record {
    coherent = Frame-IsCoherent f o.coherent;
    absent = rw (Frame-members f) o.absent;
    enrolled = λ q other. rw (Frame-members f) (ground (arith, o.enrolled q other, f.tasks q));
    by_policy = λ q. ground (arith, o.by_policy q, f.tasks q);
    queued = ground (arith, o.queued, f.tasks p);
  }

  module _ {s : State K} (p flags : ℕ) where
    dequeue_lottery-IsOut :
        IsSystem s
        → ((s.tasks p).on_rq == task_on_rq_queued) ≡ true
        → is_lottery (s.tasks p).sched_class ≡ true
        → IsOut p (dequeue_task s p flags)
    dequeue_lottery-IsOut i on own =
        let there : has p (members s) ≡ true = ground (arith, i.enrolled p) in
        let (c, m, same, _) = dequeue_task-lottery s p flags own i.coherent there in
        let left = λ (q : ℕ). has-remove_iff q p (members s) i.coherent.once in
        record {
          coherent = c;
          absent = rw (m, left p) (ground arith);
          enrolled = λ q other. rw (m, left q, same) (ground (arith, i.enrolled q));
          by_policy = λ q. rw same (i.by_policy q);
          queued = rw same on;
        }

    dequeue_other-IsOut :
        IsSystem s
        → ((s.tasks p).on_rq == task_on_rq_queued) ≡ true
        → is_lottery (s.tasks p).sched_class ≡ false
        → IsOut p (dequeue_task s p flags)
    dequeue_other-IsOut i on other = Frame-IsOut (Frame-dequeue_task s p flags other) (record {
      coherent = i.coherent;
      absent = ground (arith, i.enrolled p);
      enrolled = λ q _. i.enrolled q;
      by_policy = i.by_policy;
      queued = on;
    })

    pub dequeue_task-IsOut :
        IsSystem s
        → ((s.tasks p).on_rq == task_on_rq_queued) ≡ true
        → IsOut p (dequeue_task s p flags)
    dequeue_task-IsOut i on = elim (Bool-cases (is_lottery (s.tasks p).sched_class)) [
      | inl own ↦ dequeue_lottery-IsOut i on own
      | inr other ↦ dequeue_other-IsOut i on other
    ]

    enqueue_lottery-IsSystem :
        IsOut p s → is_lottery (s.tasks p).sched_class ≡ true → IsSystem (enqueue_task s p flags)
    enqueue_lottery-IsSystem o own =
        let (c, m, same, _, _) = enqueue_task-lottery s p flags own o.coherent o.absent in
        record {
          coherent = c;
          enrolled = λ q.
              rw (m, has-append q (members s) (p ∷ []), same)
                (elim (Bool-cases (q == p)) [
                  | inl here ↦ ground (arith, o.queued)
                  | inr other ↦ ground (arith, o.enrolled q other)
                ]);
          by_policy = λ q. rw same (o.by_policy q);
        }

    enqueue_other-IsSystem :
        IsOut p s → is_lottery (s.tasks p).sched_class ≡ false → IsSystem (enqueue_task s p flags)
    enqueue_other-IsSystem o other = Frame-IsSystem (Frame-enqueue_task s p flags other) (record {
      coherent = o.coherent;
      enrolled = λ q. elim (Bool-cases (q == p)) [
        | inl here ↦ ground (arith, o.absent)
        | inr away ↦ o.enrolled q away
      ];
      by_policy = o.by_policy;
    })

    pub enqueue_task-IsSystem : IsOut p s → IsSystem (enqueue_task s p flags)
    enqueue_task-IsSystem o = elim (Bool-cases (is_lottery (s.tasks p).sched_class)) [
      | inl own ↦ enqueue_lottery-IsSystem o own
      | inr other ↦ enqueue_other-IsSystem o other
    ]

  pub Frame-set_static_prio : (s : State K) (p : ℕ) (nice : ℤ) → Frame s (set_static_prio s p nice)
  unfolding set_static_prio
  Frame-set_static_prio s p nice = Frame-put_task s p _ (ground arith)

  pub Frame-set_nice : (s : State K) (p : ℕ) (nice : ℤ) → Frame s (set_nice s p nice)
  unfolding set_nice effective_prio
  Frame-set_nice s p nice =
      let u = set_static_prio s p nice in
      Frame-trans (Frame-set_static_prio s p nice) (
        Frame-trans (Frame-set_load_weight u p true)
          (Frame-put_task (set_load_weight u p true) p _ (ground arith)))

  -- The change between the two ends of the requeue.
  abbrev pub changed_nice : State K → (p : ℕ) → ℤ → Bool → State K
  changed_nice s p nice running = set_nice (if running then put_prev_task s p else s) p nice

  pub Frame-changed_nice :
      (s : State K) (p : ℕ) (nice : ℤ) (running : Bool) → Frame s (changed_nice s p nice running)
  Frame-changed_nice s p nice running =
      Frame-trans (Frame-if running (Frame-put_prev_task s p) (Frame-refl s))
        (Frame-set_nice _ p nice)

  abbrev pub resumed : State K → (p : ℕ) → Bool → State K
  resumed s p running = if running then set_next_task s p else s

  pub Frame-resumed :
      (s : State K) (p : ℕ) (running : Bool)
      → Frame s
          (class_prio_changed (resumed s p running) ((resumed s p running).tasks p).sched_class p)
  Frame-resumed s p running =
      Frame-trans (Frame-if running (Frame-set_next_task s p) (Frame-refl s))
        (Frame-prio_changed _ _ p)

  renice-IsSystem : {s : State K} → IsSystem s → (p : ℕ) (nice : ℤ) → IsSystem (renice s p nice)
  unfolding renice
  renice-IsSystem {s} i p nice =
      let running = p == s.rq.curr in
      elim (Bool-cases ((s.tasks p).on_rq == task_on_rq_queued)) [
        | inl on ↦ rw on (
            Frame-IsSystem (Frame-resumed _ p running) (
              enqueue_task-IsSystem p 0x0a (
                Frame-IsOut (Frame-changed_nice _ p nice running)
                  (dequeue_task-IsOut p 0x0a i on))))
        | inr off ↦ rw off (
            Frame-IsSystem (Frame-resumed _ p running)
              (Frame-IsSystem (Frame-changed_nice s p nice running) i))
      ]

  -- A new nice level keeps the invariant on every branch, for a task that is queued or not, running
  -- or not, and of any class.
  pub set_user_nice-IsSystem :
      {s : State K} → IsSystem s → (p : ℕ) (nice : ℤ) → IsSystem (set_user_nice s p nice)
  unfolding set_user_nice
  set_user_nice-IsSystem {s} i p nice =
      let ticked = update_rq_clock s in
      let j = Frame-IsSystem (Frame-update_rq_clock s) i in
      elim (Bool-cases
        (eqb_ℤ (task_nice s p) nice || (ltb_ℤ nice K.min_nice || ltb_ℤ K.max_nice nice))) [
          | inl nothing_to_do ↦ rw nothing_to_do i
          | inr change ↦
              elim (Bool-cases
                (dl_policy (ticked.tasks p).policy || rt_policy (ticked.tasks p).policy)) [
                  | inl fixed ↦
                      rw (change, fixed) (Frame-IsSystem (Frame-set_static_prio ticked p nice) j)
                  | inr own ↦ rw (change, own) (renice-IsSystem j p nice)
                ]
        ]
