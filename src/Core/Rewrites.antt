-- ===== src/Core/Rewrites.antt =====
-- A change of policy and class, as `__sched_setscheduler` of kernel/sched/core.c makes it.
use lottery_scheduler.Base.{
  ℕ, ◌≡◌, sum_by-ext, u32_mod, ◌%◌, ap, sym, ◌∙◌, Bool, true, false, Option, some, none, arith,
  ◌==◌, Bool-cases, inl, inr, ℤ,
}
use lottery_scheduler.Task.{Task, SchedClass, class_eq, ltr_policy, task_on_rq_queued}
use lottery_scheduler.Lottery.Queue.{IsCoherent, tickets_of}
use lottery_scheduler.Core.Frame.{SameTask}
use lottery_scheduler.Machine.{Kernel, State, members}
use lottery_scheduler.Core.Hooks.{after_hook, is_lottery, class_switched_from}
use lottery_scheduler.Core.Queue.{check_class_changed}
use lottery_scheduler.Core.Frame.{
  Frame, Frame-refl, Frame-trans, Frame-if, Frame-prio_changed, Frame-switched_to, Frame-after_hook,
}
use lottery_scheduler.Core.System.{IsSystem}
use lottery_scheduler.Core.Requeue.{IsOut}

class_eq_self : (c : SchedClass) → class_eq c c ≡ true
class_eq_self c = ground arith

module _ {K : Kernel} where
  Frame-switched_from :
      (s : State K) (c : SchedClass) (p : ℕ)
      → is_lottery c ≡ false
      → Frame s (class_switched_from s c p)
  unfolding class_switched_from
  Frame-switched_from s c p other = rw other (by_hook (K.ops c).switched_from)
    where
      by_hook :
          (o : Option ((ℕ → Task) → ℕ → K.Ext → Bool × K.Ext))
          → Frame s (elim o as (λ _. State K) [
            | none ↦ s
            | some hook ↦ after_hook s (hook s.tasks p s.ext)
          ])
      by_hook none = Frame-refl s
      by_hook (some hook) = Frame-after_hook s _

  -- Unless the lottery class is left, a change of class touches no lottery queue.
  pub Frame-check_class_changed :
      (s : State K) (p : ℕ) (c : SchedClass) (oldprio : ℤ)
      → (is_lottery c ≡ true → is_lottery (s.tasks p).sched_class ≡ true)
      → Frame s (check_class_changed s p c oldprio)
  unfolding check_class_changed
  Frame-check_class_changed s p c oldprio kept =
      let c' = (s.tasks p).sched_class in
      elim (Bool-cases (class_eq c c')) [
        | inl same ↦ rw same (Frame-if _ (Frame-prio_changed s c' p) (Frame-refl s))
        | inr changed ↦
            let other : is_lottery c ≡ false = ground (arith, kept, changed) in
            rw changed (Frame-trans (Frame-switched_from s c p other) (Frame-switched_to _ c' p))
      ]

  -- From `s` to `t`, the task `p` may have another policy and a class that goes with it, but it is
  -- not taken from the lottery class.
  pub record Rewrites (p : ℕ) (s t : State K) : Type 0 where
    pub ltr : t.rq.ltr ≡ s.rq.ltr
    pub links : t.links ≡ s.links
    pub others : (q : ℕ) → (q == p) ≡ false → SameTask (s.tasks q) (t.tasks q)
    pub tickets : (t.tasks p).tickets ≡ (s.tasks p).tickets
    pub on_rq : (t.tasks p).on_rq ≡ (s.tasks p).on_rq
    pub by_policy : is_lottery (t.tasks p).sched_class ≡ ltr_policy (t.tasks p).policy
    pub kept : is_lottery (s.tasks p).sched_class ≡ true → is_lottery (t.tasks p).sched_class ≡ true

  module _ {p : ℕ} {s t : State K} (r : Rewrites p s t) where
    Rewrites-tickets : (q : ℕ) → (t.tasks q).tickets ≡ (s.tasks q).tickets
    Rewrites-tickets q = elim (Bool-cases (q == p)) [
      | inl here ↦ ground (arith, r.tickets)
      | inr other ↦ (r.others q other).tickets
    ]

    Rewrites-members : members t ≡ members s
    Rewrites-members = ap K.lists.entries r.links

    Rewrites-IsCoherent : IsCoherent s → IsCoherent t
    Rewrites-IsCoherent c = record {
      linked = rw r.links c.linked;
      once = rw Rewrites-members c.once;
      counted = rw (Rewrites-members, r.ltr) c.counted;
      tallied =
          rw (Rewrites-members, r.ltr)
            (c.tallied
              ∙ ap (λ n. n % u32_mod)
                  (sym (
                    sum_by-ext (tickets_of t.tasks) (tickets_of s.tasks) (members s)
                      Rewrites-tickets)));
    }

    Rewrites-by_policy :
        ((q : ℕ) → is_lottery (s.tasks q).sched_class ≡ ltr_policy (s.tasks q).policy)
        → (q : ℕ) → is_lottery (t.tasks q).sched_class ≡ ltr_policy (t.tasks q).policy
    Rewrites-by_policy before q = elim (Bool-cases (q == p)) [
      | inl here ↦ ground (arith, r.by_policy)
      | inr other ↦ ground (arith, before q, r.others q other)
    ]

    pub Rewrites-IsOut : IsOut p s → IsOut p t
    Rewrites-IsOut o = record {
      coherent = Rewrites-IsCoherent o.coherent;
      absent = rw Rewrites-members o.absent;
      enrolled =
          λ q other. rw Rewrites-members (ground (arith, o.enrolled q other, r.others q other));
      by_policy = Rewrites-by_policy o.by_policy;
      queued = rw r.on_rq o.queued;
    }

    pub Rewrites-IsSystem :
        ((s.tasks p).on_rq == task_on_rq_queued) ≡ false → IsSystem s → IsSystem t
    Rewrites-IsSystem off i = record {
      coherent = Rewrites-IsCoherent i.coherent;
      enrolled = λ q. rw Rewrites-members (elim (Bool-cases (q == p)) [
        | inl here ↦ ground (arith, i.enrolled p, r.on_rq)
        | inr other ↦ ground (arith, i.enrolled q, r.others q other)
      ]);
      by_policy = Rewrites-by_policy i.by_policy;
    }
