-- ===== src/Clone/Silent.antt =====
-- Most steps of `copy_process` of kernel/fork.c, and all of its labels, leave the scheduler alone.
use lottery_scheduler.Base.{
  ℕ, ◌≡◌, refl, ◌∙◌, Bool, true, false, not, arith, ◌==◌, Bool-cases, inl, inr,
}
use lottery_scheduler.Task.{test_bits}
use lottery_scheduler.Machine.{Kernel}
use lottery_scheduler.Core.Setscheduler.Request.{Outcome, refuse, pass}
use lottery_scheduler.Clone.Flags.{clone_thread, clone_pidfd}
use lottery_scheduler.Clone.World.{
  Resource, mm, files, fs, sighand, io_context, Service, signal, namespaces, thread, cgroup, pid,
  fd, pidfile, Services, ForkState, Step, point, bump,
}
use lottery_scheduler.Clone.Copy.{
  take, own, own_or_null, copy_files, copy_fs, copy_sighand, copy_signal, copy_mm, copy_io,
}
use lottery_scheduler.Clone.Unwind.{
  give, give_if, cleanup_sighand, put_mm, drop_object, exit_object, fork_out, bad_fork_free,
  bad_fork_cleanup_count, bad_fork_cleanup_threadgroup_lock, bad_fork_cleanup_policy,
  bad_fork_cleanup_perf, bad_fork_cleanup_audit, bad_fork_cleanup_security,
  bad_fork_cleanup_semundo, bad_fork_cleanup_files, bad_fork_cleanup_fs, bad_fork_cleanup_sighand,
  bad_fork_cleanup_signal, bad_fork_cleanup_mm, bad_fork_cleanup_namespaces, bad_fork_cleanup_io,
  bad_fork_cleanup_thread, bad_fork_free_pid, bad_fork_put_pidfd, bad_fork_cancel_cgroup,
}

module _ {K : Kernel} {V : Services} where
  give_if-sched :
      (b : Bool) (x : Service) (p : ℕ) (s : ForkState K V) → (give_if b x p s).sched ≡ s.sched
  unfolding give_if give
  give_if-sched true x p s = refl
  give_if-sched false x p s = refl

  drop_object-sched :
      (r : Resource) (p : ℕ) (s : ForkState K V) → (drop_object r p s).sched ≡ s.sched
  unfolding drop_object
  drop_object-sched r p s = elim (Bool-cases (s.resources p r == 0)) [
    | inl null ↦ rw null refl
    | inr live ↦ rw live refl
  ]

  put_mm-sched : (p : ℕ) (s : ForkState K V) → (put_mm p s).sched ≡ s.sched
  unfolding put_mm
  put_mm-sched p s = elim (Bool-cases (s.resources p mm == 0)) [
    | inl null ↦ rw null refl
    | inr live ↦ rw live refl
  ]

  pub bad_fork_free-sched : (p : ℕ) (s : ForkState K V) → (bad_fork_free p s).sched ≡ s.sched
  unfolding bad_fork_free fork_out give
  bad_fork_free-sched p s = refl

  pub bad_fork_cleanup_count-sched :
      (p : ℕ) (s : ForkState K V) → (bad_fork_cleanup_count p s).sched ≡ s.sched
  unfolding bad_fork_free bad_fork_cleanup_count fork_out give
  bad_fork_cleanup_count-sched p s = refl

  pub bad_fork_cleanup_threadgroup_lock-sched :
      (p : ℕ) (s : ForkState K V) → (bad_fork_cleanup_threadgroup_lock p s).sched ≡ s.sched
  unfolding bad_fork_free bad_fork_cleanup_count bad_fork_cleanup_threadgroup_lock fork_out give
  bad_fork_cleanup_threadgroup_lock-sched p s = refl

  pub bad_fork_cleanup_policy-sched :
      (p : ℕ) (s : ForkState K V) → (bad_fork_cleanup_policy p s).sched ≡ s.sched
  unfolding bad_fork_free bad_fork_cleanup_count bad_fork_cleanup_threadgroup_lock
      bad_fork_cleanup_policy fork_out give
  bad_fork_cleanup_policy-sched p s = refl

  pub bad_fork_cleanup_perf-sched :
      (p : ℕ) (s : ForkState K V) → (bad_fork_cleanup_perf p s).sched ≡ s.sched
  unfolding bad_fork_free bad_fork_cleanup_count bad_fork_cleanup_threadgroup_lock
      bad_fork_cleanup_policy bad_fork_cleanup_perf fork_out give
  bad_fork_cleanup_perf-sched p s = refl

  pub bad_fork_cleanup_audit-sched :
      (p : ℕ) (s : ForkState K V) → (bad_fork_cleanup_audit p s).sched ≡ s.sched
  unfolding bad_fork_free bad_fork_cleanup_count bad_fork_cleanup_threadgroup_lock
      bad_fork_cleanup_policy bad_fork_cleanup_perf bad_fork_cleanup_audit fork_out give
  bad_fork_cleanup_audit-sched p s = refl

  pub bad_fork_cleanup_security-sched :
      (p : ℕ) (s : ForkState K V) → (bad_fork_cleanup_security p s).sched ≡ s.sched
  unfolding bad_fork_free bad_fork_cleanup_count bad_fork_cleanup_threadgroup_lock
      bad_fork_cleanup_policy bad_fork_cleanup_perf bad_fork_cleanup_audit bad_fork_cleanup_security
      fork_out give
  bad_fork_cleanup_security-sched p s = refl

  pub bad_fork_cleanup_semundo-sched :
      (p : ℕ) (s : ForkState K V) → (bad_fork_cleanup_semundo p s).sched ≡ s.sched
  unfolding bad_fork_free bad_fork_cleanup_count bad_fork_cleanup_threadgroup_lock
      bad_fork_cleanup_policy bad_fork_cleanup_perf bad_fork_cleanup_audit bad_fork_cleanup_security
      bad_fork_cleanup_semundo fork_out give
  bad_fork_cleanup_semundo-sched p s = refl

  pub bad_fork_cleanup_files-sched :
      (p : ℕ) (s : ForkState K V) → (bad_fork_cleanup_files p s).sched ≡ s.sched
  unfolding bad_fork_cleanup_files exit_object point
  bad_fork_cleanup_files-sched p s =
      bad_fork_cleanup_semundo-sched p (exit_object files p s) ∙ drop_object-sched files p s

  pub bad_fork_cleanup_fs-sched :
      (p : ℕ) (s : ForkState K V) → (bad_fork_cleanup_fs p s).sched ≡ s.sched
  unfolding bad_fork_cleanup_fs exit_object point
  bad_fork_cleanup_fs-sched p s =
      bad_fork_cleanup_files-sched p (exit_object fs p s) ∙ drop_object-sched fs p s

  pub bad_fork_cleanup_sighand-sched :
      (p : ℕ) (s : ForkState K V) → (bad_fork_cleanup_sighand p s).sched ≡ s.sched
  unfolding bad_fork_cleanup_sighand cleanup_sighand
  bad_fork_cleanup_sighand-sched p s = bad_fork_cleanup_fs-sched p (cleanup_sighand p s)

  pub bad_fork_cleanup_signal-sched :
      (flags p : ℕ) (s : ForkState K V) → (bad_fork_cleanup_signal flags p s).sched ≡ s.sched
  unfolding bad_fork_cleanup_signal
  bad_fork_cleanup_signal-sched flags p s =
      bad_fork_cleanup_sighand-sched p (give_if (not (test_bits flags clone_thread)) signal p s)
      ∙ give_if-sched (not (test_bits flags clone_thread)) signal p s

  pub bad_fork_cleanup_mm-sched :
      (flags p : ℕ) (s : ForkState K V) → (bad_fork_cleanup_mm flags p s).sched ≡ s.sched
  unfolding bad_fork_cleanup_mm
  bad_fork_cleanup_mm-sched flags p s =
      bad_fork_cleanup_signal-sched flags p (put_mm p s) ∙ put_mm-sched p s

  pub bad_fork_cleanup_namespaces-sched :
      (flags p : ℕ) (s : ForkState K V) → (bad_fork_cleanup_namespaces flags p s).sched ≡ s.sched
  unfolding bad_fork_cleanup_namespaces give
  bad_fork_cleanup_namespaces-sched flags p s =
      bad_fork_cleanup_mm-sched flags p (give namespaces p s)

  pub bad_fork_cleanup_io-sched :
      (flags p : ℕ) (s : ForkState K V) → (bad_fork_cleanup_io flags p s).sched ≡ s.sched
  unfolding bad_fork_cleanup_io
  bad_fork_cleanup_io-sched flags p s =
      bad_fork_cleanup_namespaces-sched flags p (drop_object io_context p s)
      ∙ drop_object-sched io_context p s

  pub bad_fork_cleanup_thread-sched :
      (flags p : ℕ) (s : ForkState K V) → (bad_fork_cleanup_thread flags p s).sched ≡ s.sched
  unfolding bad_fork_cleanup_thread give
  bad_fork_cleanup_thread-sched flags p s = bad_fork_cleanup_io-sched flags p (give thread p s)

  pub bad_fork_free_pid-sched :
      (idle : Bool) (flags p : ℕ) (s : ForkState K V)
      → (bad_fork_free_pid idle flags p s).sched ≡ s.sched
  unfolding bad_fork_free_pid
  bad_fork_free_pid-sched idle flags p s =
      bad_fork_cleanup_thread-sched flags p (give_if (not idle) pid p s)
      ∙ give_if-sched (not idle) pid p s

  pub bad_fork_put_pidfd-sched :
      (idle : Bool) (flags p : ℕ) (s : ForkState K V)
      → (bad_fork_put_pidfd idle flags p s).sched ≡ s.sched
  unfolding bad_fork_put_pidfd
  bad_fork_put_pidfd-sched idle flags p s =
      bad_fork_free_pid-sched idle flags p (
        give_if (test_bits flags clone_pidfd) fd p
          (give_if (test_bits flags clone_pidfd) pidfile p s))
      ∙ give_if-sched (test_bits flags clone_pidfd) fd p
          (give_if (test_bits flags clone_pidfd) pidfile p s)
      ∙ give_if-sched (test_bits flags clone_pidfd) pidfile p s

  pub bad_fork_cancel_cgroup-sched :
      (idle : Bool) (flags p : ℕ) (s : ForkState K V)
      → (bad_fork_cancel_cgroup idle flags p s).sched ≡ s.sched
  unfolding bad_fork_cancel_cgroup give
  bad_fork_cancel_cgroup-sched idle flags p s =
      bad_fork_put_pidfd-sched idle flags p (give cgroup p s)

  pub fork_out-sched : (s : ForkState K V) → (fork_out s).sched ≡ s.sched
  unfolding fork_out
  fork_out-sched s = refl

  -- What a step does to the scheduler: nothing, whatever it ends with.
  pub record Silent (m : Step K V) : Type 0 where
    pub sched : (s : ForkState K V) → (m s).1.sched ≡ s.sched

  pub own-sched :
      (s : ForkState K V) (r : Resource) (p : ℕ) (d : Outcome ℕ × V.World)
      → (own s r p d).1.sched ≡ s.sched
  unfolding own point
  own-sched s r p (refuse e, w) = refl
  own-sched s r p (pass a, w) = refl

  pub own_or_null-sched :
      (s : ForkState K V) (r : Resource) (p : ℕ) (d : Outcome ℕ × V.World)
      → (own_or_null s r p d).1.sched ≡ s.sched
  unfolding own_or_null own point
  own_or_null-sched s r p (refuse e, w) = refl
  own_or_null-sched s r p (pass a, w) = refl

  module _ (flags p : ℕ) where
    pub take-Silent : (x : Service) → Silent (take x flags p)
    unfolding take
    take-Silent x = record { sched = λ s. refl }

    pub copy_files-Silent : Silent (copy_files flags p)
    unfolding copy_files bump
    copy_files-Silent = record {
      sched = λ s. ground (arith, own-sched s files p (V.duplicate files p s.users s.world));
    }

    pub copy_fs-Silent : Silent (copy_fs flags p)
    unfolding copy_fs bump
    copy_fs-Silent = record {
      sched = λ s. ground (arith, own_or_null-sched s fs p (V.duplicate fs p s.users s.world));
    }

    pub copy_sighand-Silent : Silent (copy_sighand flags p)
    unfolding copy_sighand bump
    copy_sighand-Silent = record {
      sched = λ s.
          ground (arith, own_or_null-sched s sighand p (V.duplicate sighand p s.users s.world));
    }

    pub copy_signal-Silent : Silent (copy_signal flags p)
    unfolding copy_signal take
    copy_signal-Silent = record { sched = λ s. ground arith }

    pub copy_mm-Silent : Silent (copy_mm flags p)
    unfolding copy_mm bump point
    copy_mm-Silent = record {
      sched = λ s. ground (
        arith,
        own_or_null-sched (point s p mm 0) mm p
            (V.duplicate mm p (point s p mm 0).users (point s p mm 0).world),
      );
    }

    pub copy_io-Silent : Silent (copy_io flags p)
    unfolding copy_io point
    copy_io-Silent = record {
      sched = λ s.
          ground
            (arith, own_or_null-sched s io_context p (V.duplicate io_context p s.users s.world));
    }
