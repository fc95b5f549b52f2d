-- ===== src/Clone/Stages.antt =====
-- The steps of `copy_process` of kernel/fork.c that are its own statements: what the child holds after each.
use lottery_scheduler.Base.{
  ℕ, ◌≡◌, refl, ap, ◌∙◌, Bool, true, false, Option, none, some, List, [], ◌∷◌, arith, ◌||◌, not,
  if◌then◌else◌, ◌==◌, Bool-cases, inl, inr, leb,
}
use lottery_scheduler.Task.{SchedClass, task_new, test_bits}
use lottery_scheduler.Machine.{Kernel, State, Errno, put_task}
use lottery_scheduler.Core.Fork.{
  dup_task, reset_on_fork, fork_params, fork_class, sched_fork_setup, sched_fork, set_fork_class,
  sched_cgroup_fork,
}
use lottery_scheduler.Core.Frame.{Frame-set_load_weight}
use lottery_scheduler.Clone.Flags.{clone_pidfd}
use lottery_scheduler.Clone.World.{
  io_context, task_struct, delayacct, pid, fd, pidfile, Services, IsBalanced, ForkState, CloneArgs,
  current, resource_index, with_world, point, write_at, write_member, ◌▹◌, or_goto,
}
use lottery_scheduler.Clone.Copy.{take}
use lottery_scheduler.Clone.Unwind.{give}
use lottery_scheduler.Clone.Steps.{
  collect_signals, duplicate_task, dup_into, dup_task_struct, check_limits, reset_task,
  fork_scheduler, open_pidfd, store_pidfd, take_pid, set_ids, set_parent, check_late, publish,
}
use lottery_scheduler.Clone.Debts.{
  Debt, service, owed_service, owed_object, owes_object, Owes, Owes-same, Owes-point, give-Owes,
}
use lottery_scheduler.Clone.Taking.{
  Ends, at_label-Ends, and_then-Ends, Half, acquired-Ends, take-Ends, kept-Owes,
}
use lottery_scheduler.Clone.Copied.{Half-no_service}

module _ {K : Kernel} where
  sched_cgroup_fork-curr : (s : State K) (p : ℕ) → (sched_cgroup_fork s p).rq.curr ≡ s.rq.curr
  unfolding sched_cgroup_fork
  sched_cgroup_fork-curr s p = ground arith

  set_fork_class-curr :
      (s : State K) (p : ℕ) (o : Option SchedClass) → (set_fork_class s p o).1.rq.curr ≡ s.rq.curr
  unfolding set_fork_class put_task
  set_fork_class-curr s p none = refl
  set_fork_class-curr s p (some c) = refl

  if-curr :
      (s t : State K) {c : ℕ} (b : Bool)
      → s.rq.curr ≡ c
      → t.rq.curr ≡ c
      → (if b then s else t).rq.curr ≡ c
  if-curr _ _ true a _ = a
  if-curr _ _ false _ b = b

  fork_params-curr : (s : State K) (p : ℕ) → (fork_params s p).rq.curr ≡ s.rq.curr
  unfolding fork_params put_task
  fork_params-curr s p =
      let t = record (s.tasks p) { state = task_new; prio = (s.tasks s.rq.curr).normal_prio } in
      let f = Frame-set_load_weight (put_task s p (reset_on_fork K t)) p false in
      if-curr _ _ (s.tasks p).sched_reset_on_fork f.curr refl

  sched_fork-curr : (s : State K) (p : ℕ) → (sched_fork s p).1.rq.curr ≡ s.rq.curr
  unfolding sched_fork sched_fork_setup
  sched_fork-curr s p =
      let s' = fork_params (sched_fork_setup s p) p in
      set_fork_class-curr s' p (fork_class K (s'.tasks p))
      ∙ fork_params-curr (sched_fork_setup s p) p

module _ {K : Kernel} {V : Services} (L : IsBalanced V) (p : ℕ) (s0 : ForkState K V) where
  -- Before the child has memory: nothing is held, and the parent is not at its address.
  abbrev pub Fresh : ForkState K V → Type 0
  Fresh s = Owes L p s0 [] s × ((current s == p) ≡ false)

  Half-same :
      {k : ℕ} {xs : List Debt} {s t : ForkState K V}
      → t.world ≡ s.world
      → t.users ≡ s.users
      → t.resources ≡ s.resources
      → current t ≡ current s
      → Half L p s0 k xs s
      → Half L p s0 k xs t
  Half-same {k} {xs} {s} {t} w u r c h = record {
    owes = Owes-same L p s0 w u (ap (λ f. f p) r) h.owes;
    other = rw c h.other;
    inherits = λ q lo hi. rw (r, c) (h.inherits q lo hi);
    bare = λ up off. rw r (h.bare up off);
  }

  pub collect_signals-Ends :
      {s : ForkState K V} (flags : ℕ)
      → Fresh s
      → Ends (Owes L p s0 []) Fresh (collect_signals flags s)
  unfolding collect_signals Ends
  collect_signals-Ends {s} flags f =
      let o = Owes-same L p s0 refl refl refl f.0 in
      elim (Bool-cases (V.task_sigpending s.world)) [
        | inl pending ↦ rw pending o
        | inr clear ↦ rw clear (o, f.1)
      ]

  dup_into-Ends :
      {s : ForkState K V} (args : CloneArgs)
      → Fresh s
      → (r : Option Errno × V.World)
      → Ends (Owes L p s0 []) (Owes L p s0 (service true task_struct ∷ [])) (r.0, with_world s r.1)
      → Ends (Owes L p s0 []) (Half L p s0 0 (service true task_struct ∷ [])) (dup_into args p s r)
  unfolding dup_into duplicate_task dup_task put_task Ends write_at owed_object owed_service
      owes_object
  dup_into-Ends args f (some e, w) o = o
  dup_into-Ends {s} args f (none, w) o = record {
    owes = record { services = o.services; objects = o.objects };
    other = f.1;
    inherits = λ q lo hi. ground (arith, f.1);
    bare = λ up off. ground (arith, up);
  }

  pub dup_task_struct-Ends :
      {s : ForkState K V} (args : CloneArgs)
      → Fresh s
      → Ends
          (Owes L p s0 [])
          (Half L p s0 0 (service true task_struct ∷ []))
          (dup_task_struct args p s)
  unfolding dup_task_struct
  dup_task_struct-Ends {s} args f =
      let r = V.acquire task_struct args.flags p s.world in
      dup_into-Ends args f r (acquired-Ends L p s0 task_struct args.flags f.0 r refl)

  module _ {k : ℕ} {xs : List Debt} {s : ForkState K V} (h : Half L p s0 k xs s) where
    pub check_limits-Ends : Ends (Owes L p s0 xs) (Half L p s0 k xs) (check_limits s)
    unfolding check_limits Ends
    check_limits-Ends =
        elim (Bool-cases (V.over_nproc s.world || leb (V.max_threads s.world) s.nr_threads)) [
          | inl over ↦ rw over h.owes
          | inr under ↦ rw under h
        ]

    fork_scheduler_as-Ends :
        (r : Option Errno × State K)
        → r.1.rq.curr ≡ current s
        → Ends (Owes L p s0 xs) (Half L p s0 k xs) (r.0, record s { sched = r.1 })
    unfolding Ends
    fork_scheduler_as-Ends (some e, t) c = Owes-same L p s0 refl refl refl h.owes
    fork_scheduler_as-Ends (none, t) c = Half-same refl refl refl c h

    pub store_pidfd-Ends :
        (args : CloneArgs) → Ends (Owes L p s0 xs) (Half L p s0 k xs) (store_pidfd args p s)
    unfolding store_pidfd Ends
    store_pidfd-Ends args =
        let r = V.put_user (V.fd_nr p s.world) args.pidfd s.world in
        let o =
          kept-Owes L p s0 h.owes r.1
            (λ v. L.put_user-held v (V.fd_nr p s.world) args.pidfd s.world) in
        elim (Bool-cases (test_bits args.flags clone_pidfd)) [
          | inr plain ↦ rw plain h
          | inl wanted ↦ elim (Bool-cases r.0) [
            | inl faults ↦ rw (wanted, faults) o
            | inr stored ↦
                rw (wanted, stored)
                  (record { owes = o; other = h.other; inherits = h.inherits; bare = h.bare })
          ]
        ]

    pub set_ids-Ends :
        (bad : ForkState K V → Type 0) (idle : Bool) (flags : ℕ)
        → Ends bad (Half L p s0 k xs) (set_ids idle flags p s)
    unfolding set_ids put_task Ends
    set_ids-Ends bad idle flags = Half-same refl refl refl refl h

    pub set_parent-Ends :
        (bad : ForkState K V → Type 0) (args : CloneArgs)
        → Ends bad (Half L p s0 k xs) (set_parent args p s)
    unfolding set_parent Ends
    set_parent-Ends bad args = Half-same refl refl refl (sched_cgroup_fork-curr s.sched p) h

    pub check_late-Ends : Ends (Owes L p s0 xs) (Half L p s0 k xs) (check_late p s)
    unfolding check_late Ends
    check_late-Ends = elim (Bool-cases (V.pidns_adding p s.world)) [
      | inr dying ↦ rw dying h.owes
      | inl adding ↦ elim (Bool-cases (V.fatal_signal_pending s.world)) [
        | inl killed ↦ rw (adding, killed) h.owes
        | inr alive ↦ rw (adding, alive) h
      ]
    ]

    pub publish-Ends :
        (bad : ForkState K V → Type 0)
        → Ends bad (λ t. Half L p s0 k xs t × (t.delayed ≡ false)) (publish p s)
    unfolding publish Ends
    publish-Ends bad = (Half-same refl refl refl refl h, refl)

    pub take_pid-Ends :
        (idle : Bool) (flags : ℕ)
        → Ends
            (Owes L p s0 xs)
            (Half L p s0 k (service (not idle) pid ∷ xs))
            (take_pid idle flags p s)
    unfolding take_pid Ends
    take_pid-Ends true flags = Half-no_service L p s0 pid h
    take_pid-Ends false flags = take-Ends L p s0 pid flags h

    open_pidfd_wanted-Ends :
        (flags : ℕ)
        → Ends
            (Owes L p s0 xs)
            (Half L p s0 k (service true pidfile ∷ service true fd ∷ xs))
            ((take fd flags p ▹ or_goto (give fd p) (take pidfile flags p)) s)
    unfolding ◌▹◌ or_goto
    open_pidfd_wanted-Ends flags =
        and_then-Ends _ _ _
          (λ t g.
            at_label-Ends _ _ (give fd p) (λ u o. give-Owes L p s0 fd o) _
              (take-Ends L p s0 pidfile flags g))
          _ (take-Ends L p s0 fd flags h)

    pub open_pidfd-Ends :
        (args : CloneArgs)
        → Ends
            (Owes L p s0 xs)
            (Half L p s0 k (
              service (test_bits args.flags clone_pidfd) pidfile
              ∷ service (test_bits args.flags clone_pidfd) fd
              ∷ xs))
            (open_pidfd args p s)
    unfolding open_pidfd Ends
    open_pidfd-Ends args = elim (Bool-cases (test_bits args.flags clone_pidfd)) [
      | inl wanted ↦ rw wanted (open_pidfd_wanted-Ends args.flags)
      | inr plain ↦ rw plain (go (Half-no_service L p s0 pidfile (Half-no_service L p s0 fd h)))
    ]
      where
        go :
            Half L p s0 k (service false pidfile ∷ service false fd ∷ xs) s
            → Ends
                (Owes L p s0 xs)
                (Half L p s0 k (service false pidfile ∷ service false fd ∷ xs))
                (none, s)
        go g = g

  pub fork_scheduler-Ends :
      {k : ℕ} {xs : List Debt} {s : ForkState K V}
      → Half L p s0 k xs s
      → Ends (Owes L p s0 xs) (Half L p s0 k xs) (fork_scheduler p s)
  unfolding fork_scheduler
  fork_scheduler-Ends {s = s} h =
      fork_scheduler_as-Ends h (sched_fork s.sched p) (sched_fork-curr s.sched p)

  pub reset_task-Ends :
      (bad : ForkState K V → Type 0) {xs : List Debt} {s : ForkState K V}
      → owes_object io_context xs ≡ false
      → Half L p s0 0 xs s
      → Ends bad (Half L p s0 1 (service true delayacct ∷ xs)) (reset_task p s)
  unfolding reset_task Ends owed_object owed_service owes_object point write_at write_member
      resource_index
  reset_task-Ends bad {xs} {s} off h =
      let o : Owes L p s0 (service true delayacct ∷ xs)
          (with_world s (V.init_delayacct p s.world)) =
        record {
          services = λ v. ground (arith, h.owes.services v, L.init_delayacct-held v p s.world);
          objects = h.owes.objects;
        } in
      let o' = Owes-point L p s0 o io_context 0 off in
      record {
        owes = record { services = o'.services; objects = o'.objects };
        other = h.other;
        inherits = λ q lo hi. ground (arith, h.inherits q (ground arith) hi, h.other, hi);
        bare = λ up io. ground arith;
      }
