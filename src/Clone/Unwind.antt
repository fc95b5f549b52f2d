-- ===== src/Clone/Unwind.antt =====
-- The labels at the end of `copy_process` of kernel/fork.c, each of which falls through to the next,
-- and `__cleanup_sighand`.
use lottery_scheduler.Base.{ℕ, ◌-◌, Bool, false, not, ◌==◌, if◌then◌else◌}
use lottery_scheduler.Task.{test_bits}
use lottery_scheduler.Machine.{Kernel}
use lottery_scheduler.Clone.Flags.{clone_thread, clone_pidfd}
use lottery_scheduler.Clone.World.{
  Resource, mm, files, fs, sighand, io_context, Service, task_struct, creds, delayacct, mempolicy,
  perf_event, audit, security, semundo, signal, namespaces, thread, pid, fd, pidfile, cgroup,
  Services, ForkState, with_users, with_world, point, write_at,
}

module _ {K : Kernel} {V : Services} where
  unfoldable pub give : Service → (p : ℕ) → ForkState K V → ForkState K V
  give x p s = with_world s (V.release x p s.world)

  unfoldable pub give_if : Bool → Service → (p : ℕ) → ForkState K V → ForkState K V
  unfolding give
  give_if b x p s = if b then give x p s else s

  -- `refcount_dec_and_test(&sighand->count)`
  unfoldable pub cleanup_sighand : (p : ℕ) → ForkState K V → ForkState K V
  unfolding write_at
  cleanup_sighand p s =
      let a = s.resources p sighand in with_users s (write_at s.users a (s.users a - 1))

  -- `mmput(p->mm)`, for a pointer that is not NULL
  unfoldable pub put_mm : (p : ℕ) → ForkState K V → ForkState K V
  unfolding write_at
  put_mm p s =
      let a = s.resources p mm in
      if a == 0 then s else with_users s (write_at s.users a (s.users a - 1))

  -- `exit_io_context(p)`, for a pointer that is not NULL, and what `exit_fs` and `exit_files` share with it
  unfoldable pub drop_object : Resource → (p : ℕ) → ForkState K V → ForkState K V
  drop_object r p s =
      let a = s.resources p r in if a == 0 then s else with_users s (V.put_object r a s.users)

  -- `exit_fs(p)` and `exit_files(p)`, which leave NULL behind
  unfoldable pub exit_object : Resource → (p : ℕ) → ForkState K V → ForkState K V
  unfolding drop_object point
  exit_object r p s = point (drop_object r p s) p r 0

  unfoldable pub fork_out : ForkState K V → ForkState K V
  fork_out s = record s { delayed = false }

  unfoldable pub bad_fork_free : (p : ℕ) → ForkState K V → ForkState K V
  unfolding give fork_out
  bad_fork_free p s = fork_out (give task_struct p s)

  unfoldable pub bad_fork_cleanup_count : (p : ℕ) → ForkState K V → ForkState K V
  unfolding give bad_fork_free
  bad_fork_cleanup_count p s = bad_fork_free p (give creds p s)

  unfoldable pub bad_fork_cleanup_threadgroup_lock : (p : ℕ) → ForkState K V → ForkState K V
  unfolding give bad_fork_cleanup_count
  bad_fork_cleanup_threadgroup_lock p s = bad_fork_cleanup_count p (give delayacct p s)

  unfoldable pub bad_fork_cleanup_policy : (p : ℕ) → ForkState K V → ForkState K V
  unfolding give bad_fork_cleanup_threadgroup_lock
  bad_fork_cleanup_policy p s = bad_fork_cleanup_threadgroup_lock p (give mempolicy p s)

  unfoldable pub bad_fork_cleanup_perf : (p : ℕ) → ForkState K V → ForkState K V
  unfolding give bad_fork_cleanup_policy
  bad_fork_cleanup_perf p s = bad_fork_cleanup_policy p (give perf_event p s)

  unfoldable pub bad_fork_cleanup_audit : (p : ℕ) → ForkState K V → ForkState K V
  unfolding give bad_fork_cleanup_perf
  bad_fork_cleanup_audit p s = bad_fork_cleanup_perf p (give audit p s)

  unfoldable pub bad_fork_cleanup_security : (p : ℕ) → ForkState K V → ForkState K V
  unfolding give bad_fork_cleanup_audit
  bad_fork_cleanup_security p s = bad_fork_cleanup_audit p (give security p s)

  unfoldable pub bad_fork_cleanup_semundo : (p : ℕ) → ForkState K V → ForkState K V
  unfolding give bad_fork_cleanup_security
  bad_fork_cleanup_semundo p s = bad_fork_cleanup_security p (give semundo p s)

  unfoldable pub bad_fork_cleanup_files : (p : ℕ) → ForkState K V → ForkState K V
  unfolding exit_object bad_fork_cleanup_semundo
  bad_fork_cleanup_files p s = bad_fork_cleanup_semundo p (exit_object files p s)

  unfoldable pub bad_fork_cleanup_fs : (p : ℕ) → ForkState K V → ForkState K V
  unfolding exit_object bad_fork_cleanup_files
  bad_fork_cleanup_fs p s = bad_fork_cleanup_files p (exit_object fs p s)

  unfoldable pub bad_fork_cleanup_sighand : (p : ℕ) → ForkState K V → ForkState K V
  unfolding cleanup_sighand bad_fork_cleanup_fs
  bad_fork_cleanup_sighand p s = bad_fork_cleanup_fs p (cleanup_sighand p s)

  unfoldable pub bad_fork_cleanup_signal : (flags p : ℕ) → ForkState K V → ForkState K V
  unfolding give_if bad_fork_cleanup_sighand
  bad_fork_cleanup_signal flags p s =
      bad_fork_cleanup_sighand p (give_if (not (test_bits flags clone_thread)) signal p s)

  unfoldable pub bad_fork_cleanup_mm : (flags p : ℕ) → ForkState K V → ForkState K V
  unfolding put_mm bad_fork_cleanup_signal
  bad_fork_cleanup_mm flags p s = bad_fork_cleanup_signal flags p (put_mm p s)

  unfoldable pub bad_fork_cleanup_namespaces : (flags p : ℕ) → ForkState K V → ForkState K V
  unfolding give bad_fork_cleanup_mm
  bad_fork_cleanup_namespaces flags p s = bad_fork_cleanup_mm flags p (give namespaces p s)

  unfoldable pub bad_fork_cleanup_io : (flags p : ℕ) → ForkState K V → ForkState K V
  unfolding drop_object bad_fork_cleanup_namespaces
  bad_fork_cleanup_io flags p s = bad_fork_cleanup_namespaces flags p (drop_object io_context p s)

  unfoldable pub bad_fork_cleanup_thread : (flags p : ℕ) → ForkState K V → ForkState K V
  unfolding give bad_fork_cleanup_io
  bad_fork_cleanup_thread flags p s = bad_fork_cleanup_io flags p (give thread p s)

  -- `pid != &init_struct_pid`, which is false of an idle task
  unfoldable pub bad_fork_free_pid : Bool → (flags p : ℕ) → ForkState K V → ForkState K V
  unfolding give_if bad_fork_cleanup_thread
  bad_fork_free_pid idle flags p s = bad_fork_cleanup_thread flags p (give_if (not idle) pid p s)

  unfoldable pub bad_fork_put_pidfd : Bool → (flags p : ℕ) → ForkState K V → ForkState K V
  unfolding give_if bad_fork_free_pid
  bad_fork_put_pidfd idle flags p s = bad_fork_free_pid idle flags p (
      give_if (test_bits flags clone_pidfd) fd p
        (give_if (test_bits flags clone_pidfd) pidfile p s))

  unfoldable pub bad_fork_cancel_cgroup : Bool → (flags p : ℕ) → ForkState K V → ForkState K V
  unfolding give bad_fork_put_pidfd
  bad_fork_cancel_cgroup idle flags p s = bad_fork_put_pidfd idle flags p (give cgroup p s)
