-- ===== src/Clone/Balanced.antt =====
-- `copy_process` of kernel/fork.c takes all or nothing: an error gives back what was taken, and a success
-- holds what the flags say.
use lottery_scheduler.Base.{
  ℕ, suc, ◌+◌, ◌≡◌, refl, Bool, true, false, Option, none, some, not, arith, ◌==◌,
}
use lottery_scheduler.Task.{test_bits}
use lottery_scheduler.Machine.{Kernel, Errno}
use lottery_scheduler.Core.Setscheduler.Request.{Outcome, refuse, pass}
use lottery_scheduler.Clone.Flags.{check_flags, clone_thread, clone_pidfd}
use lottery_scheduler.Clone.World.{
  Resource, mm, files, fs, sighand, io_context, Service, task_struct, creds, delayacct, mempolicy,
  perf_event, audit, security, semundo, signal, namespaces, thread, pid, fd, pidfile, cgroup,
  Services, IsBalanced, ForkState, CloneArgs, current, service_index, indicator,
}
use lottery_scheduler.Clone.Process.{copy_all, copy_process_if, copy_process}
use lottery_scheduler.Clone.Debts.{owed_service, owed_object}
use lottery_scheduler.Clone.Taking.{Ends, Half}
use lottery_scheduler.Clone.Unwound.{Restored, d_cgroup}
use lottery_scheduler.Clone.Runs.{copy_all-Runs}

-- What a child of these flags holds of each service.
unfoldable pub child_holds : (idle : Bool) (flags : ℕ) → Service → Bool
child_holds idle flags task_struct = true
child_holds idle flags creds = true
child_holds idle flags delayacct = true
child_holds idle flags mempolicy = true
child_holds idle flags perf_event = true
child_holds idle flags audit = true
child_holds idle flags security = true
child_holds idle flags semundo = true
child_holds idle flags signal = not (test_bits flags clone_thread)
child_holds idle flags namespaces = true
child_holds idle flags thread = true
child_holds idle flags pid = not idle
child_holds idle flags fd = test_bits flags clone_pidfd
child_holds idle flags pidfile = test_bits flags clone_pidfd
child_holds idle flags cgroup = true

owed_service-child :
    (idle : Bool) (flags : ℕ) (v : Service)
    → owed_service v (d_cgroup idle flags) ≡ indicator (child_holds idle flags v)
unfolding owed_service service_index child_holds
owed_service-child idle flags task_struct = ground arith
owed_service-child idle flags creds = ground arith
owed_service-child idle flags delayacct = ground arith
owed_service-child idle flags mempolicy = ground arith
owed_service-child idle flags perf_event = ground arith
owed_service-child idle flags audit = ground arith
owed_service-child idle flags security = ground arith
owed_service-child idle flags semundo = ground arith
owed_service-child idle flags signal = ground arith
owed_service-child idle flags namespaces = ground arith
owed_service-child idle flags thread = ground arith
owed_service-child idle flags pid = ground arith
owed_service-child idle flags fd = ground arith
owed_service-child idle flags pidfile = ground arith
owed_service-child idle flags cgroup = ground arith

-- How many of the members point to the object.
unfoldable pub pointers_to : (Resource → ℕ) → (object : ℕ) → ℕ
pointers_to links a =
    indicator (links mm == a)
    + indicator (links files == a)
    + indicator (links fs == a)
    + indicator (links sighand == a)
    + indicator (links io_context == a)

owed_object-child :
    (idle : Bool) (flags : ℕ) (links : Resource → ℕ) (a : ℕ)
    → owed_object links a (d_cgroup idle flags) ≡ pointers_to links a
unfolding owed_object pointers_to
owed_object-child idle flags links a = omega arith

module _ {K : Kernel} {V : Services} (L : IsBalanced V) (idle : Bool) (args : CloneArgs) (p : ℕ)
    (s : ForkState K V) where
  -- What a service holds, who uses an object and the signals are as in `s`. NULL is no object.
  abbrev pub AsBefore : Service → ℕ → ForkState K V → Type 0
  AsBefore v a t =
      (L.held v t.world ≡ L.held v s.world)
      × (t.users (suc a) ≡ s.users (suc a))
      × (t.delayed ≡ false)

  -- A service holds for the child what its flags ask for, and an object has the child's members that
  -- point to it as new users.
  abbrev pub HoldsChild : Service → ℕ → ForkState K V → Type 0
  HoldsChild v a t =
      (L.held v t.world ≡ L.held v s.world + indicator (child_holds idle args.flags v))
      × (t.users (suc a) ≡ s.users (suc a) + pointers_to (t.resources p) (suc a))
      × (t.delayed ≡ false)

  Restored-AsBefore : {t : ForkState K V} (v : Service) (a : ℕ) → Restored L p s t → AsBefore v a t
  unfolding owed_service owed_object
  Restored-AsBefore v a r =
      (omega (arith, r.0.services v), omega (arith, r.0.objects (suc a) (ground arith)), r.1)

  Half-HoldsChild :
      {t : ForkState K V} (v : Service) (a : ℕ)
      → Half L p s 4 (d_cgroup idle args.flags) t
      → t.delayed ≡ false
      → HoldsChild v a t
  Half-HoldsChild {t} v a h d = (
    omega (arith, h.owes.services v, owed_service-child idle args.flags v),
    omega (
      arith,
      h.owes.objects (suc a) (ground arith),
      owed_object-child idle args.flags (t.resources p) (suc a),
    ),
    d,
  )

  abbrev Good : ForkState K V → Type 0
  Good t = Half L p s 4 (d_cgroup idle args.flags) t × (t.delayed ≡ false)

  error-AsBefore :
      (r : Option Errno × ForkState K V)
      → Ends (Restored L p s) Good r
      → (v : Service) (a : ℕ) (e : Errno) → r.0 ≡ some e
      → AsBefore v a r.1
  unfolding Ends
  error-AsBefore (some c, t) h v a e eq = Restored-AsBefore v a h
  error-AsBefore (none, t) h v a e eq = cc

  success-HoldsChild :
      (r : Option Errno × ForkState K V)
      → Ends (Restored L p s) Good r
      → (v : Service) (a : ℕ) → r.0 ≡ none
      → HoldsChild v a r.1
  unfolding Ends
  success-HoldsChild (some c, t) h v a eq = cc
  success-HoldsChild (none, t) h v a eq = Half-HoldsChild v a h.0 h.1

  module _ (other : (current s == p) ≡ false) (quiet : s.delayed ≡ false) (v : Service)
      (a : ℕ) where
    copy_all-Ends : Ends (Restored L p s) Good (copy_all idle args p s)
    unfolding owed_service owed_object
    copy_all-Ends =
        let r = copy_all-Runs L p s idle args in
        r.run s (record { services = λ v. omega arith; objects = λ a live. omega arith }, other)

    -- An error of `copy_process`, at whichever step, leaves each service holding what it held, each
    -- object with the users it had and no signals held back, if the child's memory is not the parent's
    -- and no signals were held back before.
    pub copy_process-AsBefore :
        (e : Errno)
        → (copy_process idle args p s).0 ≡ some e
        → AsBefore v a (copy_process idle args p s).1
    unfolding copy_process copy_process_if
    copy_process-AsBefore e eq = go (check_flags args.flags (V.origin s.world)) eq
      where
        go :
            (o : Outcome (Unit {0}))
            → (copy_process_if idle args p s o).0 ≡ some e
            → AsBefore v a (copy_process_if idle args p s o).1
        go (refuse c) eq = (refl, refl, quiet)
        go (pass u) eq = error-AsBefore (copy_all idle args p s) copy_all-Ends v a e eq

    -- A `copy_process` that succeeds leaves the child holding one of each service, but for the signal
    -- struct of a thread, the pid of an idle task and the pidfd that was not asked for; each object has
    -- as many more users as members of the child point to it, and no signals are held back, if the
    -- child's memory is not the parent's and no signals were held back before.
    pub copy_process-HoldsChild :
        (copy_process idle args p s).0 ≡ none → HoldsChild v a (copy_process idle args p s).1
    unfolding copy_process copy_process_if
    copy_process-HoldsChild eq = go (check_flags args.flags (V.origin s.world)) eq
      where
        go :
            (o : Outcome (Unit {0}))
            → (copy_process_if idle args p s o).0 ≡ none
            → HoldsChild v a (copy_process_if idle args p s o).1
        go (refuse c) eq = cc
        go (pass u) eq = success-HoldsChild (copy_all idle args p s) copy_all-Ends v a eq
