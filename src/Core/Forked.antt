-- ===== src/Core/Forked.antt =====
-- A child that `dup_task_struct` and `sched_fork` set up is outside every queue, whatever its parent
-- is, and its class goes with its policy: kernel/sched/core.c and kernel/fork.c.
use lottery_scheduler.Base.{
  ℕ, ◌≡◌, ◌≢◌, refl, ap, ◌∙◌, false, Option, none, some, arith, Bool, ◌&&◌, ◌==◌, Bool-cases, inl,
  inr, has, sum_by-ext_off, u32_mod, ◌%◌,
}
use lottery_scheduler.Core.Load.{set_load, set_load_weight}
use lottery_scheduler.Task.{
  task_new, fair, class_eq, Task, SchedClass, ltr_policy, task_on_rq_queued, write,
}
use lottery_scheduler.Machine.{Kernel, State, members, put_task, with_ext}
use lottery_scheduler.Lottery.Queue.{IsCoherent, tickets_of}
use lottery_scheduler.Core.Hooks.{is_lottery}
use lottery_scheduler.Core.Frame.{Frame, Frame-set_load_weight, Frame-refl, Frame-if, Frame-ext}
use lottery_scheduler.Core.System.{IsSystem, queued_lottery}
use lottery_scheduler.Core.Fork.{
  dup_task, sched_fork_setup, reset_on_fork, fork_params, fork_class, sched_fork, set_fork_class,
  sched_cgroup_fork,
}

-- Not on the run queue, and a class that goes with the policy.
abbrev Fits : Task → Type 0
Fits t = (t.on_rq ≡ 0) × (is_lottery t.sched_class ≡ ltr_policy t.policy)

fork_class-Fits :
    (K : Kernel) (t : Task) (c : SchedClass)
    → fork_class K t ≡ some c
    → is_lottery c ≡ ltr_policy t.policy
unfolding fork_class
fork_class-Fits K t c e = ground (arith, e)

module _ {K : Kernel} where
  -- The invariant without the task `p`, which is in no queue.
  pub record IsSystemBut (p : ℕ) (s : State K) : Type 0 where
    pub coherent : IsCoherent s
    pub absent : has p (members s) ≡ false
    pub enrolled : (q : ℕ) → (q == p) ≡ false → has q (members s) ≡ queued_lottery (s.tasks q)
    pub by_policy :
        (q : ℕ)
        → (q == p) ≡ false
        → is_lottery (s.tasks q).sched_class ≡ ltr_policy (s.tasks q).policy

  -- Any write to `p` alone keeps it.
  pub put_task-IsSystemBut :
      {s : State K} (p : ℕ) (t : Task) → IsSystemBut p s → IsSystemBut p (put_task s p t)
  unfolding put_task write
  put_task-IsSystemBut {s} p t i = record {
    coherent = record {
      linked = i.coherent.linked;
      once = i.coherent.once;
      counted = i.coherent.counted;
      tallied =
          i.coherent.tallied
          ∙ ap (λ n. n % u32_mod)
              (sum_by-ext_off (tickets_of s.tasks) (tickets_of (write s.tasks p t)) p (members s)
                i.absent (λ q other. ground arith));
    };
    absent = i.absent;
    enrolled = λ q other. ground (arith, i.enrolled q other);
    by_policy = λ q other. ground (arith, i.by_policy q other);
  }

  ext-IsSystemBut :
      {s : State K} (p : ℕ) (e : K.Ext) → IsSystemBut p s → IsSystemBut p (with_ext s e)
  ext-IsSystemBut p e i = record {
    coherent = record {
      linked = i.coherent.linked;
      once = i.coherent.once;
      counted = i.coherent.counted;
      tallied = i.coherent.tallied;
    };
    absent = i.absent;
    enrolled = i.enrolled;
    by_policy = i.by_policy;
  }

  pub IsSystem-But :
      {s : State K} (p : ℕ) → IsSystem s → (s.tasks p).on_rq ≢ task_on_rq_queued → IsSystemBut p s
  IsSystem-But p i off = record {
    coherent = i.coherent;
    absent = ground (arith, i.enrolled p);
    enrolled = λ q _. i.enrolled q;
    by_policy = λ q _. i.by_policy q;
  }

  -- The task comes back with a class that goes with its policy, and off the run queue.
  pub But-IsSystem :
      {s : State K} (p : ℕ)
      → IsSystemBut p s
      → (s.tasks p).on_rq ≡ 0
      → is_lottery (s.tasks p).sched_class ≡ ltr_policy (s.tasks p).policy
      → IsSystem s
  But-IsSystem p i off goes = record {
    coherent = i.coherent;
    enrolled = λ q. elim (Bool-cases (q == p)) [
      | inl here ↦ ground (arith, i.absent)
      | inr other ↦ i.enrolled q other
    ];
    by_policy = λ q. elim (Bool-cases (q == p)) [
      | inl here ↦ ground (arith, goes)
      | inr other ↦ i.by_policy q other
    ];
  }

  pub dup_task-IsSystemBut : {s : State K} (p : ℕ) → IsSystemBut p s → IsSystemBut p (dup_task s p)
  unfolding dup_task
  dup_task-IsSystemBut p i = put_task-IsSystemBut p _ i

  set_load_weight-IsSystemBut :
      {s : State K} (p : ℕ) (update : Bool)
      → IsSystemBut p s
      → IsSystemBut p (set_load_weight s p update)
  unfolding set_load_weight set_load
  set_load_weight-IsSystemBut {s} p update i =
      elim (Bool-cases (update && class_eq (s.tasks p).sched_class fair)) [
        | inl fair_class ↦ rw fair_class (ext-IsSystemBut p _ (put_task-IsSystemBut p _ i))
        | inr plain ↦ rw plain (put_task-IsSystemBut p _ i)
      ]

  fork_params-IsSystemBut :
      {s : State K} (p : ℕ) → IsSystemBut p s → IsSystemBut p (fork_params s p)
  unfolding fork_params
  fork_params-IsSystemBut {s} p i = elim (Bool-cases (s.tasks p).sched_reset_on_fork) [
    | inl reset ↦ rw reset (set_load_weight-IsSystemBut p false (put_task-IsSystemBut p _ i))
    | inr kept ↦ rw kept (put_task-IsSystemBut p _ i)
  ]

  fork_params-Fits :
      (s : State K) (p : ℕ)
      → is_lottery (s.tasks p).sched_class ≡ ltr_policy (s.tasks p).policy
      → Fits ((fork_params (sched_fork_setup s p) p).tasks p)
  unfolding fork_params sched_fork_setup reset_on_fork put_task write
  fork_params-Fits s p goes =
      let u = sched_fork_setup s p in
      let t = record (u.tasks p) { state = task_new; prio = (u.tasks u.rq.curr).normal_prio } in
      let f = Frame-set_load_weight (put_task u p (reset_on_fork K t)) p false in
      ground (arith, goes, f.tasks p)

  sched_fork_setup-IsSystemBut :
      {s : State K} (p : ℕ) → IsSystemBut p s → IsSystemBut p (sched_fork_setup s p)
  unfolding sched_fork_setup
  sched_fork_setup-IsSystemBut p i = ext-IsSystemBut p _ (put_task-IsSystemBut p _ i)

  set_fork_class-IsSystem :
      {s : State K} (p : ℕ) (o : Option SchedClass)
      → ((c : SchedClass) → o ≡ some c → is_lottery c ≡ ltr_policy (s.tasks p).policy)
      → IsSystemBut p s
      → Fits (s.tasks p)
      → IsSystem (set_fork_class s p o).1 × (((set_fork_class s p o).1.tasks p).on_rq ≡ 0)
  unfolding set_fork_class put_task write
  set_fork_class-IsSystem p none goes i fits = (But-IsSystem p i fits.0 fits.1, fits.0)
  set_fork_class-IsSystem {s} p (some c) goes i fits =
      let j =
        ext-IsSystemBut p (K.init_entity_runnable_average p s.ext)
          (put_task-IsSystemBut p (record (s.tasks p) { sched_class = c }) i) in
      let off = fits.0 in
      let fits_class = goes c refl in
      (But-IsSystem p j (ground (arith, off)) (ground (arith, fits_class)), ground (arith, off))

  -- `sched_fork` brings the invariant back around a child whose class goes with its policy, as a
  -- copy of the parent's does, and leaves it off the run queue: on both of its exits.
  pub sched_fork-IsSystem :
      {s : State K} (p : ℕ)
      → IsSystemBut p s
      → is_lottery (s.tasks p).sched_class ≡ ltr_policy (s.tasks p).policy
      → IsSystem (sched_fork s p).1 × (((sched_fork s p).1.tasks p).on_rq ≡ 0)
  unfolding sched_fork
  sched_fork-IsSystem {s} p i goes =
      let s' = fork_params (sched_fork_setup s p) p in
      set_fork_class-IsSystem p (fork_class K (s'.tasks p)) (fork_class-Fits K (s'.tasks p))
        (fork_params-IsSystemBut p (sched_fork_setup-IsSystemBut p i)) (fork_params-Fits s p goes)

  pub Frame-sched_cgroup_fork : (s : State K) (p : ℕ) → Frame s (sched_cgroup_fork s p)
  unfolding sched_cgroup_fork
  Frame-sched_cgroup_fork s p =
      Frame-if (is_lottery (s.tasks p).sched_class) (Frame-refl s) (Frame-ext s _)
