-- ===== src/Lottery/Queue.antt =====
-- The counters of the lottery run queue against its list: `enqueue_task_lottery`,
-- `dequeue_task_lottery`, `init_ltr_rq` and `switched_from_lottery` of kernel/sched/lottery.c.
use lottery_scheduler.Base.{
  ℕ, ◌%◌, ◌≡◌, refl, ◌∙◌, true, false, [], ◌∷◌, ◌++◌, arith, has, remove, distinct, length, sum_by,
  length-append, sum_by-append, length-remove, sum_by-remove, distinct-snoc, distinct-remove,
  remove-snoc, has-append, u32_mod, add32, sub32, sub32-add32,
}
use lottery_scheduler.Task.{Tasks}
use lottery_scheduler.Machine.{Kernel, State, members}
use lottery_scheduler.Lottery.Hooks.{
  unless_faulted, init_ltr_rq, enqueue_task_lottery, dequeue_task_lottery, switched_from_lottery,
}

abbrev pub tickets_of : Tasks → ℕ → ℕ
tickets_of m p = (m p).tickets

module _ {K : Kernel} where
  -- The list is a circle over distinct tasks, `nr_running` is their number and `total_tickets` the
  -- sum of their tickets, both as `unsigned int`.
  pub record IsCoherent (s : State K) : Type 0 where
    pub linked : K.lists.IsLinked s.links
    pub once : distinct (members s) ≡ true
    pub counted : s.rq.ltr.nr_running ≡ length (members s) % u32_mod
    pub tallied : s.rq.ltr.total_tickets ≡ sum_by (tickets_of s.tasks) (members s) % u32_mod

  -- An initialised run queue is coherent and empty.
  pub init_ltr_rq-IsCoherent :
      (s : State K) → IsCoherent (init_ltr_rq s) × (members (init_ltr_rq s) ≡ [])
  unfolding init_ltr_rq
  init_ltr_rq-IsCoherent s =
      let e = K.lists.entries-init s.links in
      (
        record {
          linked = K.lists.IsLinked-init s.links;
          once = rw e;
          counted = rw e;
          tallied = rw e;
        },
        e,
      )

  module _ {s : State K} (inv : IsCoherent s) (p flags : ℕ) where
    pub members-enqueue :
        has p (members s) ≡ false → members (enqueue_task_lottery s p flags) ≡ members s ++ p ∷ []
    unfolding enqueue_task_lottery
    members-enqueue out = K.lists.entries-add p s.links inv.linked out

    -- Enqueuing a task that is not in a coherent queue puts it last and keeps the queue coherent.
    pub enqueue-IsCoherent :
        has p (members s) ≡ false
        → IsCoherent (enqueue_task_lottery s p flags)
          × (members (enqueue_task_lottery s p flags) ≡ members s ++ p ∷ [])
    unfolding enqueue_task_lottery add32
    enqueue-IsCoherent out =
        let e = K.lists.entries-add p s.links inv.linked out in
        (
          record {
            linked = K.lists.IsLinked-add p s.links inv.linked out;
            once = rw e (distinct-snoc p (members s) inv.once out);
            counted = rw e (omega (arith, inv.counted, length-append (members s) (p ∷ [])));
            tallied = rw e (
                omega
                  (arith, inv.tallied, sum_by-append (tickets_of s.tasks) (members s) (p ∷ [])));
          },
          e,
        )

    -- Dequeuing a task of a coherent queue takes it out and keeps the queue coherent.
    pub dequeue-IsCoherent :
        has p (members s) ≡ true
        → IsCoherent (dequeue_task_lottery s p flags)
          × (members (dequeue_task_lottery s p flags) ≡ remove p (members s))
    unfolding dequeue_task_lottery unless_faulted sub32
    dequeue-IsCoherent there =
        let e = K.lists.entries-del p s.links inv.linked there in
        let circle = K.lists.IsLinked-del p s.links inv.linked there in
        let runs = K.lists.IsLinked-faulted (K.lists.list_del p s.links) circle in
        (
          record {
            linked = circle;
            once = rw e (distinct-remove p (members s) inv.once);
            counted = rw (runs, e) (omega (arith, inv.counted, length-remove p (members s) there));
            tallied =
                rw (runs, e)
                  (omega
                    (arith, inv.tallied, sum_by-remove (tickets_of s.tasks) p (members s) there));
          },
          e,
        )

  -- A task that is not in a coherent queue, enqueued and dequeued again, leaves the counters and the
  -- queue as they were.
  pub dequeue-enqueue :
      {s : State K}
      → IsCoherent s
      → (p flags flags' : ℕ) → has p (members s) ≡ false
      → let t : State K = dequeue_task_lottery (enqueue_task_lottery s p flags) p flags' in
        (t.rq.ltr.nr_running ≡ s.rq.ltr.nr_running)
        × (t.rq.ltr.total_tickets ≡ s.rq.ltr.total_tickets)
        × (members t ≡ members s)
  unfolding enqueue_task_lottery dequeue_task_lottery unless_faulted
  dequeue-enqueue {s} inv p flags flags' out =
      let (c, e) = enqueue-IsCoherent inv p flags out in
      let there : has p (members (enqueue_task_lottery s p flags)) ≡ true =
        rw (e, has-append p (members s) (p ∷ [])) (ground arith) in
      let (_, e') = dequeue-IsCoherent c p flags' there in
      let links = (enqueue_task_lottery s p flags).links in
      let runs =
        K.lists.IsLinked-faulted (K.lists.list_del p links)
          (K.lists.IsLinked-del p links c.linked there) in
      (
        rw runs (sub32-add32 _ 1 (omega (arith, inv.counted))),
        rw runs (sub32-add32 _ _ (omega (arith, inv.tallied))),
        e' ∙ rw e (remove-snoc p (members s) out),
      )

  -- switched_from_lottery on a task that was just taken out of a coherent queue, as check_class_changed
  -- calls it, faults: it takes the poisoned entry for a queued one. It has changed neither the
  -- counters nor the log by then.
  pub switched_from-dequeue :
      {s : State K}
      → IsCoherent s
      → (p flags : ℕ) → has p (members s) ≡ true
      → let t : State K = dequeue_task_lottery s p flags in
        let u : State K = switched_from_lottery t p in
        (K.lists.faulted t.links ≡ false)
        × (K.lists.faulted u.links ≡ true)
        × (u.rq.ltr ≡ t.rq.ltr)
        × (u.log ≡ t.log)
  unfolding switched_from_lottery dequeue_task_lottery unless_faulted
  switched_from-dequeue {s} inv p flags there =
      let l = s.links in
      let poisoned = K.lists.list_del-poisoned p l inv.linked there in
      let runs =
        K.lists.IsLinked-faulted (K.lists.list_del p l)
          (K.lists.IsLinked-del p l inv.linked there) in
      rw (K.lists.list_empty_entry-del p l inv.linked there)
        (runs, poisoned, rw poisoned refl, rw poisoned refl)
