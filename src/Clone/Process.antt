-- ===== src/Clone/Process.antt =====
-- `copy_process` of kernel/fork.c: its steps in order, each with the label that it goes to.
use lottery_scheduler.Base.{ℕ, Bool, Option, some}
use lottery_scheduler.Machine.{Kernel, Errno}
use lottery_scheduler.Core.Setscheduler.Request.{Outcome, refuse, pass}
use lottery_scheduler.Clone.Flags.{check_flags}
use lottery_scheduler.Clone.World.{
  creds, mempolicy, perf_event, audit, security, semundo, namespaces, thread, cgroup, Services,
  ForkState, Step, CloneArgs, ◌▹◌, or_goto,
}
use lottery_scheduler.Clone.Copy.{
  take, copy_files, copy_fs, copy_sighand, copy_signal, copy_mm, copy_io,
}
use lottery_scheduler.Clone.Unwind.{
  fork_out, bad_fork_free, bad_fork_cleanup_count, bad_fork_cleanup_threadgroup_lock,
  bad_fork_cleanup_policy, bad_fork_cleanup_perf, bad_fork_cleanup_audit, bad_fork_cleanup_security,
  bad_fork_cleanup_semundo, bad_fork_cleanup_files, bad_fork_cleanup_fs, bad_fork_cleanup_sighand,
  bad_fork_cleanup_signal, bad_fork_cleanup_mm, bad_fork_cleanup_namespaces, bad_fork_cleanup_io,
  bad_fork_cleanup_thread, bad_fork_free_pid, bad_fork_put_pidfd, bad_fork_cancel_cgroup,
}
use lottery_scheduler.Clone.Steps.{
  collect_signals, dup_task_struct, check_limits, reset_task, fork_scheduler, open_pidfd,
  store_pidfd, take_pid, set_ids, set_parent, check_late, publish,
}

module _ {K : Kernel} {V : Services} where
  -- The start, up to the limits on processes.
  unfoldable pub copy_start : CloneArgs → (p : ℕ) → Step K V
  unfolding ◌▹◌ or_goto
  copy_start args p =
      or_goto fork_out (collect_signals args.flags)
      ▹ or_goto fork_out (dup_task_struct args p)
      ▹ or_goto (bad_fork_free p) (take creds args.flags p)
      ▹ or_goto (bad_fork_cleanup_count p) check_limits

  unfoldable pub copy_setup : (flags p : ℕ) → Step K V
  unfolding ◌▹◌ or_goto
  copy_setup flags p =
      reset_task p
      ▹ or_goto (bad_fork_cleanup_threadgroup_lock p) (take mempolicy flags p)
      ▹ or_goto (bad_fork_cleanup_policy p) (fork_scheduler p)
      ▹ or_goto (bad_fork_cleanup_policy p) (take perf_event flags p)
      ▹ or_goto (bad_fork_cleanup_perf p) (take audit flags p)
      ▹ or_goto (bad_fork_cleanup_audit p) (take security flags p)
      ▹ or_goto (bad_fork_cleanup_security p) (take semundo flags p)

  -- All the process information.
  unfoldable pub copy_resources : (flags p : ℕ) → Step K V
  unfolding ◌▹◌ or_goto
  copy_resources flags p =
      or_goto (bad_fork_cleanup_semundo p) (copy_files flags p)
      ▹ or_goto (bad_fork_cleanup_files p) (copy_fs flags p)
      ▹ or_goto (bad_fork_cleanup_fs p) (copy_sighand flags p)
      ▹ or_goto (bad_fork_cleanup_sighand p) (copy_signal flags p)
      ▹ or_goto (bad_fork_cleanup_signal flags p) (copy_mm flags p)
      ▹ or_goto (bad_fork_cleanup_mm flags p) (take namespaces flags p)
      ▹ or_goto (bad_fork_cleanup_namespaces flags p) (copy_io flags p)
      ▹ or_goto (bad_fork_cleanup_io flags p) (take thread flags p)

  -- The pid and what makes the child visible.
  unfoldable pub copy_finish : Bool → CloneArgs → (p : ℕ) → Step K V
  unfolding ◌▹◌ or_goto
  copy_finish idle args p =
      or_goto (bad_fork_cleanup_thread args.flags p) (take_pid idle args.flags p)
      ▹ or_goto (bad_fork_free_pid idle args.flags p) (open_pidfd args p)
      ▹ or_goto (bad_fork_put_pidfd idle args.flags p) (store_pidfd args p)
      ▹ set_ids idle args.flags p
      ▹ or_goto (bad_fork_put_pidfd idle args.flags p) (take cgroup args.flags p)
      ▹ set_parent args p
      ▹ or_goto (bad_fork_cancel_cgroup idle args.flags p) (check_late p)
      ▹ publish p

  unfoldable pub copy_all : Bool → CloneArgs → (p : ℕ) → Step K V
  unfolding ◌▹◌ or_goto
  copy_all idle args p =
      copy_start args p
      ▹ copy_setup args.flags p
      ▹ copy_resources args.flags p
      ▹ copy_finish idle args p

  -- What the checks of the flags let pass is tried.
  unfoldable pub copy_process_if :
      Bool → CloneArgs → (p : ℕ) → ForkState K V → Outcome (Unit {0}) → Option Errno × ForkState K V
  unfolding copy_all
  copy_process_if idle args p s (refuse e) = (some e, s)
  copy_process_if idle args p s (pass _) = copy_all idle args p s

  -- `idle` says that the pid given is `&init_struct_pid`; `p` is the memory of the new task.
  unfoldable pub copy_process :
      Bool → CloneArgs → (p : ℕ) → ForkState K V → Option Errno × ForkState K V
  unfolding check_flags copy_process_if
  copy_process idle args p s =
      copy_process_if idle args p s (check_flags args.flags (V.origin s.world))
