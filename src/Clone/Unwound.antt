-- ===== src/Clone/Unwound.antt =====
-- The debts of a child at each label of `copy_process` of kernel/fork.c, and that the labels pay them.
use lottery_scheduler.Base.{ℕ, ◌≡◌, refl, Bool, true, false, not, List, [], ◌∷◌}
use lottery_scheduler.Task.{test_bits}
use lottery_scheduler.Machine.{Kernel}
use lottery_scheduler.Clone.Flags.{clone_thread, clone_pidfd}
use lottery_scheduler.Clone.World.{
  mm, files, fs, sighand, io_context, task_struct, creds, delayacct, mempolicy, perf_event, audit,
  security, semundo, signal, namespaces, thread, pid, fd, pidfile, cgroup, Services, IsBalanced,
  ForkState, resource_index,
}
use lottery_scheduler.Clone.Unwind.{
  fork_out, bad_fork_free, bad_fork_cleanup_count, bad_fork_cleanup_threadgroup_lock,
  bad_fork_cleanup_policy, bad_fork_cleanup_perf, bad_fork_cleanup_audit, bad_fork_cleanup_security,
  bad_fork_cleanup_semundo, bad_fork_cleanup_files, bad_fork_cleanup_fs, bad_fork_cleanup_sighand,
  bad_fork_cleanup_signal, bad_fork_cleanup_mm, bad_fork_cleanup_namespaces, bad_fork_cleanup_io,
  bad_fork_cleanup_thread, bad_fork_free_pid, bad_fork_put_pidfd, bad_fork_cancel_cgroup,
}
use lottery_scheduler.Clone.Debts.{
  Debt, service, object, Owes, give-Owes, give_if-Owes, drop_object-Owes, put_mm-Owes,
  exit_object-Owes, cleanup_sighand-Owes, owes_object,
}

abbrev pub d_task : List Debt
d_task = service true task_struct ∷ []

abbrev pub d_creds : List Debt
d_creds = service true creds ∷ d_task

abbrev pub d_delayacct : List Debt
d_delayacct = service true delayacct ∷ d_creds

abbrev pub d_mempolicy : List Debt
d_mempolicy = service true mempolicy ∷ d_delayacct

abbrev pub d_perf : List Debt
d_perf = service true perf_event ∷ d_mempolicy

abbrev pub d_audit : List Debt
d_audit = service true audit ∷ d_perf

abbrev pub d_security : List Debt
d_security = service true security ∷ d_audit

abbrev pub d_semundo : List Debt
d_semundo = service true semundo ∷ d_security

abbrev pub d_files : List Debt
d_files = object files ∷ d_semundo

abbrev pub d_fs : List Debt
d_fs = object fs ∷ d_files

abbrev pub d_sighand : List Debt
d_sighand = object sighand ∷ d_fs

abbrev pub d_signal : ℕ → List Debt
d_signal flags = service (not (test_bits flags clone_thread)) signal ∷ d_sighand

abbrev pub d_mm : ℕ → List Debt
d_mm flags = object mm ∷ d_signal flags

abbrev pub d_namespaces : ℕ → List Debt
d_namespaces flags = service true namespaces ∷ d_mm flags

abbrev pub d_io : ℕ → List Debt
d_io flags = object io_context ∷ d_namespaces flags

abbrev pub d_thread : ℕ → List Debt
d_thread flags = service true thread ∷ d_io flags

abbrev pub d_pid : Bool → ℕ → List Debt
d_pid idle flags = service (not idle) pid ∷ d_thread flags

abbrev pub d_pidfd : Bool → ℕ → List Debt
d_pidfd idle flags =
    service (test_bits flags clone_pidfd) pidfile
    ∷ service (test_bits flags clone_pidfd) fd
    ∷ d_pid idle flags

abbrev pub d_cgroup : Bool → ℕ → List Debt
d_cgroup idle flags = service true cgroup ∷ d_pidfd idle flags

module _ {K : Kernel} {V : Services} (L : IsBalanced V) (p : ℕ) (s0 : ForkState K V) where
  -- All is as it was in `s0`, and no signals are held back.
  abbrev pub Restored : ForkState K V → Type 0
  Restored s = Owes L p s0 [] s × (s.delayed ≡ false)

  pub fork_out-Restored : {s : ForkState K V} → Owes L p s0 [] s → Restored (fork_out s)
  unfolding fork_out
  fork_out-Restored o = (record { services = o.services; objects = o.objects }, refl)

  pub bad_fork_free-Restored :
      {s : ForkState K V} → Owes L p s0 d_task s → Restored (bad_fork_free p s)
  unfolding bad_fork_free
  bad_fork_free-Restored o = fork_out-Restored (give-Owes L p s0 task_struct o)

  pub bad_fork_cleanup_count-Restored :
      {s : ForkState K V} → Owes L p s0 d_creds s → Restored (bad_fork_cleanup_count p s)
  unfolding bad_fork_cleanup_count
  bad_fork_cleanup_count-Restored o = bad_fork_free-Restored (give-Owes L p s0 creds o)

  pub bad_fork_cleanup_threadgroup_lock-Restored :
      {s : ForkState K V}
      → Owes L p s0 d_delayacct s
      → Restored (bad_fork_cleanup_threadgroup_lock p s)
  unfolding bad_fork_cleanup_threadgroup_lock
  bad_fork_cleanup_threadgroup_lock-Restored o =
      bad_fork_cleanup_count-Restored (give-Owes L p s0 delayacct o)

  pub bad_fork_cleanup_policy-Restored :
      {s : ForkState K V} → Owes L p s0 d_mempolicy s → Restored (bad_fork_cleanup_policy p s)
  unfolding bad_fork_cleanup_policy
  bad_fork_cleanup_policy-Restored o =
      bad_fork_cleanup_threadgroup_lock-Restored (give-Owes L p s0 mempolicy o)

  pub bad_fork_cleanup_perf-Restored :
      {s : ForkState K V} → Owes L p s0 d_perf s → Restored (bad_fork_cleanup_perf p s)
  unfolding bad_fork_cleanup_perf
  bad_fork_cleanup_perf-Restored o =
      bad_fork_cleanup_policy-Restored (give-Owes L p s0 perf_event o)

  pub bad_fork_cleanup_audit-Restored :
      {s : ForkState K V} → Owes L p s0 d_audit s → Restored (bad_fork_cleanup_audit p s)
  unfolding bad_fork_cleanup_audit
  bad_fork_cleanup_audit-Restored o = bad_fork_cleanup_perf-Restored (give-Owes L p s0 audit o)

  pub bad_fork_cleanup_security-Restored :
      {s : ForkState K V} → Owes L p s0 d_security s → Restored (bad_fork_cleanup_security p s)
  unfolding bad_fork_cleanup_security
  bad_fork_cleanup_security-Restored o =
      bad_fork_cleanup_audit-Restored (give-Owes L p s0 security o)

  pub bad_fork_cleanup_semundo-Restored :
      {s : ForkState K V} → Owes L p s0 d_semundo s → Restored (bad_fork_cleanup_semundo p s)
  unfolding bad_fork_cleanup_semundo
  bad_fork_cleanup_semundo-Restored o =
      bad_fork_cleanup_security-Restored (give-Owes L p s0 semundo o)

  pub bad_fork_cleanup_files-Restored :
      {s : ForkState K V} → Owes L p s0 d_files s → Restored (bad_fork_cleanup_files p s)
  unfolding bad_fork_cleanup_files owes_object resource_index
  bad_fork_cleanup_files-Restored o =
      bad_fork_cleanup_semundo-Restored (exit_object-Owes L p s0 files refl o)

  pub bad_fork_cleanup_fs-Restored :
      {s : ForkState K V} → Owes L p s0 d_fs s → Restored (bad_fork_cleanup_fs p s)
  unfolding bad_fork_cleanup_fs owes_object resource_index
  bad_fork_cleanup_fs-Restored o =
      bad_fork_cleanup_files-Restored (exit_object-Owes L p s0 fs refl o)

  pub bad_fork_cleanup_sighand-Restored :
      {s : ForkState K V} → Owes L p s0 d_sighand s → Restored (bad_fork_cleanup_sighand p s)
  unfolding bad_fork_cleanup_sighand
  bad_fork_cleanup_sighand-Restored o = bad_fork_cleanup_fs-Restored (cleanup_sighand-Owes L p s0 o)

  pub bad_fork_cleanup_signal-Restored :
      (flags : ℕ) {s : ForkState K V}
      → Owes L p s0 (d_signal flags) s
      → Restored (bad_fork_cleanup_signal flags p s)
  unfolding bad_fork_cleanup_signal
  bad_fork_cleanup_signal-Restored flags o =
      bad_fork_cleanup_sighand-Restored
        (give_if-Owes L p s0 (not (test_bits flags clone_thread)) signal o)

  pub bad_fork_cleanup_mm-Restored :
      (flags : ℕ) {s : ForkState K V}
      → Owes L p s0 (d_mm flags) s
      → Restored (bad_fork_cleanup_mm flags p s)
  unfolding bad_fork_cleanup_mm
  bad_fork_cleanup_mm-Restored flags o =
      bad_fork_cleanup_signal-Restored flags (put_mm-Owes L p s0 o)

  pub bad_fork_cleanup_namespaces-Restored :
      (flags : ℕ) {s : ForkState K V}
      → Owes L p s0 (d_namespaces flags) s
      → Restored (bad_fork_cleanup_namespaces flags p s)
  unfolding bad_fork_cleanup_namespaces
  bad_fork_cleanup_namespaces-Restored flags o =
      bad_fork_cleanup_mm-Restored flags (give-Owes L p s0 namespaces o)

  pub bad_fork_cleanup_io-Restored :
      (flags : ℕ) {s : ForkState K V}
      → Owes L p s0 (d_io flags) s
      → Restored (bad_fork_cleanup_io flags p s)
  unfolding bad_fork_cleanup_io
  bad_fork_cleanup_io-Restored flags o =
      bad_fork_cleanup_namespaces-Restored flags (drop_object-Owes L p s0 io_context o)

  pub bad_fork_cleanup_thread-Restored :
      (flags : ℕ) {s : ForkState K V}
      → Owes L p s0 (d_thread flags) s
      → Restored (bad_fork_cleanup_thread flags p s)
  unfolding bad_fork_cleanup_thread
  bad_fork_cleanup_thread-Restored flags o =
      bad_fork_cleanup_io-Restored flags (give-Owes L p s0 thread o)

  pub bad_fork_free_pid-Restored :
      (idle : Bool) (flags : ℕ) {s : ForkState K V}
      → Owes L p s0 (d_pid idle flags) s
      → Restored (bad_fork_free_pid idle flags p s)
  unfolding bad_fork_free_pid
  bad_fork_free_pid-Restored idle flags o =
      bad_fork_cleanup_thread-Restored flags (give_if-Owes L p s0 (not idle) pid o)

  pub bad_fork_put_pidfd-Restored :
      (idle : Bool) (flags : ℕ) {s : ForkState K V}
      → Owes L p s0 (d_pidfd idle flags) s
      → Restored (bad_fork_put_pidfd idle flags p s)
  unfolding bad_fork_put_pidfd
  bad_fork_put_pidfd-Restored idle flags o = bad_fork_free_pid-Restored idle flags (
      give_if-Owes L p s0 (test_bits flags clone_pidfd) fd
        (give_if-Owes L p s0 (test_bits flags clone_pidfd) pidfile o))

  pub bad_fork_cancel_cgroup-Restored :
      (idle : Bool) (flags : ℕ) {s : ForkState K V}
      → Owes L p s0 (d_cgroup idle flags) s
      → Restored (bad_fork_cancel_cgroup idle flags p s)
  unfolding bad_fork_cancel_cgroup
  bad_fork_cancel_cgroup-Restored idle flags o =
      bad_fork_put_pidfd-Restored idle flags (give-Owes L p s0 cgroup o)
