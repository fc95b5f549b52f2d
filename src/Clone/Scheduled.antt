-- ===== src/Clone/Scheduled.antt =====
-- `copy_process` of kernel/fork.c and the scheduler: the queue stays coherent around a half-made child,
-- and a child that is done belongs to the system.
use lottery_scheduler.Base.{ℕ, sym, subst, Bool, Option, none, some, arith, if◌then◌else◌}
use lottery_scheduler.Task.{write}
use lottery_scheduler.Machine.{Kernel, State, Errno, put_task}
use lottery_scheduler.Core.Setscheduler.Request.{Outcome, refuse, pass}
use lottery_scheduler.Core.System.{Frame-IsSystem}
use lottery_scheduler.Core.Frame.{Frame-put_task}
use lottery_scheduler.Core.Fork.{dup_task, sched_fork}
use lottery_scheduler.Core.Forked.{
  dup_task-IsSystemBut, sched_fork-IsSystem, Frame-sched_cgroup_fork,
}
use lottery_scheduler.Clone.World.{
  creds, mempolicy, perf_event, audit, security, semundo, namespaces, thread, cgroup, task_struct,
  Services, ForkState, CloneArgs,
}
use lottery_scheduler.Clone.Steps.{
  dup_into, duplicate_task, dup_task_struct, fork_scheduler, set_ids, set_parent,
}
use lottery_scheduler.Clone.Process.{
  copy_start, copy_setup, copy_resources, copy_finish, copy_all, copy_process_if,
}
use lottery_scheduler.Clone.Taking.{Ends}
use lottery_scheduler.Clone.Runs.{Runs, goto-Runs, ▹-Runs}
use lottery_scheduler.Clone.Silent.{
  take-Silent, copy_files-Silent, copy_fs-Silent, copy_sighand-Silent, copy_signal-Silent,
  copy_mm-Silent, copy_io-Silent, fork_out-sched, bad_fork_free-sched, bad_fork_cleanup_count-sched,
  bad_fork_cleanup_threadgroup_lock-sched, bad_fork_cleanup_policy-sched,
  bad_fork_cleanup_perf-sched, bad_fork_cleanup_audit-sched, bad_fork_cleanup_security-sched,
  bad_fork_cleanup_semundo-sched, bad_fork_cleanup_files-sched, bad_fork_cleanup_fs-sched,
  bad_fork_cleanup_sighand-sched, bad_fork_cleanup_signal-sched, bad_fork_cleanup_mm-sched,
  bad_fork_cleanup_namespaces-sched, bad_fork_cleanup_io-sched, bad_fork_cleanup_thread-sched,
  bad_fork_free_pid-sched, bad_fork_put_pidfd-sched, bad_fork_cancel_cgroup-sched,
}
use lottery_scheduler.Clone.Quiet.{
  Start, But, Fit, Placed, Start-But, Placed-But, Fit-But, On, Silent-Runs, Silent-goto,
  collect_signals-Silent, check_limits-Silent, reset_task-Silent, take_pid-Silent,
  open_pidfd-Silent, store_pidfd-Silent, check_late-Silent, publish-Silent,
}

module _ {K : Kernel} {V : Services} where
  module _ (p : ℕ) where
    dup_into-Ends :
        (args : CloneArgs) (s : ForkState K V) (r : Option Errno × V.World)
        → Start p s.sched
        → Ends {K = K} {V = V} (On (But p)) (On (Fit p)) (dup_into args p s r)
    unfolding dup_into duplicate_task dup_task put_task write Ends
    dup_into-Ends args s (some e, w) b = Start-But p s.sched b
    dup_into-Ends args s (none, w) b = (
      dup_task-IsSystemBut p (Start-But p s.sched b),
      ground (arith, b.0.by_policy s.sched.rq.curr),
    )

    dup_task_struct-Runs :
        (args : CloneArgs)
        → Runs {K = K} {V = V} (On (Start p)) (On (But p)) (On (Fit p)) (dup_task_struct args p)
    unfolding dup_task_struct
    dup_task_struct-Runs args = record {
      run = λ s b. dup_into-Ends args s (V.acquire task_struct args.flags p s.world) b;
    }

    fork_scheduler_as-Ends :
        (s : ForkState K V) (r : Option Errno × State K)
        → Placed p r.1
        → Ends {K = K} {V = V} (On (Placed p)) (On (Placed p)) (r.0, record s { sched = r.1 })
    unfolding Ends
    fork_scheduler_as-Ends s (some e, x) d = d
    fork_scheduler_as-Ends s (none, x) d = d

    fork_scheduler-Runs :
        Runs {K = K} {V = V} (On (Fit p)) (On (Placed p)) (On (Placed p)) (fork_scheduler p)
    unfolding fork_scheduler
    fork_scheduler-Runs = record {
      run = λ s f. fork_scheduler_as-Ends s (sched_fork s.sched p) (sched_fork-IsSystem p f.0 f.1);
    }

    set_ids-Runs :
        (idle : Bool) (flags : ℕ)
        → Runs {K = K} {V = V} (On (Placed p)) (On (But p)) (On (Placed p)) (set_ids idle flags p)
    unfolding set_ids Ends
    set_ids-Runs idle flags = record {
      run = λ s d.
          let nr : ℕ = if idle then 0 else V.pid_nr p s.world in
          let f = Frame-put_task s.sched p (record (s.sched.tasks p) { pid = nr }) (ground arith) in
          (Frame-IsSystem f d.0, ground (arith, d.1, f.tasks p));
    }

    set_parent-Runs :
        (args : CloneArgs)
        → Runs {K = K} {V = V} (On (Placed p)) (On (But p)) (On (Placed p)) (set_parent args p)
    unfolding set_parent Ends
    set_parent-Runs args = record {
      run = λ s d.
          let f = Frame-sched_cgroup_fork s.sched p in
          (Frame-IsSystem f d.0, ground (arith, d.1, f.tasks p));
    }

    copy_start-Runs :
        (args : CloneArgs)
        → Runs {K = K} {V = V} (On (Start p)) (On (But p)) (On (Fit p)) (copy_start args p)
    unfolding copy_start
    copy_start-Runs args =
        ▹-Runs
          (Silent-goto (Start p) (But p) (Start-But p) _ fork_out-sched
            (collect_signals-Silent p args.flags))
          (▹-Runs
            (goto-Runs _ (λ s b. subst (But p) (sym (fork_out-sched s)) b)
              (dup_task_struct-Runs args))
            (▹-Runs
              (Silent-goto (Fit p) (But p) (Fit-But p) _ (bad_fork_free-sched p)
                (take-Silent args.flags p creds))
              (Silent-goto (Fit p) (But p) (Fit-But p) _ (bad_fork_cleanup_count-sched p)
                (check_limits-Silent p))))

    copy_setup-Runs :
        (flags : ℕ)
        → Runs {K = K} {V = V} (On (Fit p)) (On (But p)) (On (Placed p)) (copy_setup flags p)
    unfolding copy_setup
    copy_setup-Runs flags = ▹-Runs (Silent-Runs (Fit p) (But p) (Fit-But p) (reset_task-Silent p)) (
        ▹-Runs
          (Silent-goto (Fit p) (But p) (Fit-But p) _ (bad_fork_cleanup_threadgroup_lock-sched p)
            (take-Silent flags p mempolicy))
          (▹-Runs
            (goto-Runs _
              (λ s d.
                subst (But p) (sym (bad_fork_cleanup_policy-sched p s)) (Placed-But p s.sched d))
              fork_scheduler-Runs)
            (▹-Runs
              (Silent-goto (Placed p) (But p) (Placed-But p) _ (bad_fork_cleanup_policy-sched p)
                (take-Silent flags p perf_event))
              (▹-Runs
                (Silent-goto (Placed p) (But p) (Placed-But p) _ (bad_fork_cleanup_perf-sched p)
                  (take-Silent flags p audit))
                (▹-Runs
                  (Silent-goto (Placed p) (But p) (Placed-But p) _ (bad_fork_cleanup_audit-sched p)
                    (take-Silent flags p security))
                  (Silent-goto (Placed p) (But p) (Placed-But p) _
                    (bad_fork_cleanup_security-sched p) (take-Silent flags p semundo)))))))

    copy_resources-Runs :
        (flags : ℕ)
        → Runs {K = K} {V = V} (On (Placed p)) (On (But p)) (On (Placed p)) (copy_resources flags p)
    unfolding copy_resources
    copy_resources-Runs flags =
        ▹-Runs
          (Silent-goto (Placed p) (But p) (Placed-But p) _ (bad_fork_cleanup_semundo-sched p)
            (copy_files-Silent flags p))
          (▹-Runs
            (Silent-goto (Placed p) (But p) (Placed-But p) _ (bad_fork_cleanup_files-sched p)
              (copy_fs-Silent flags p))
            (▹-Runs
              (Silent-goto (Placed p) (But p) (Placed-But p) _ (bad_fork_cleanup_fs-sched p)
                (copy_sighand-Silent flags p))
              (▹-Runs
                (Silent-goto (Placed p) (But p) (Placed-But p) _ (bad_fork_cleanup_sighand-sched p)
                  (copy_signal-Silent flags p))
                (▹-Runs
                  (Silent-goto (Placed p) (But p) (Placed-But p) _
                    (bad_fork_cleanup_signal-sched flags p) (copy_mm-Silent flags p))
                  (▹-Runs
                    (Silent-goto (Placed p) (But p) (Placed-But p) _
                      (bad_fork_cleanup_mm-sched flags p) (take-Silent flags p namespaces))
                    (▹-Runs
                      (Silent-goto (Placed p) (But p) (Placed-But p) _
                        (bad_fork_cleanup_namespaces-sched flags p) (copy_io-Silent flags p))
                      (Silent-goto (Placed p) (But p) (Placed-But p) _
                        (bad_fork_cleanup_io-sched flags p) (take-Silent flags p thread))))))))

    copy_finish-Runs :
        (idle : Bool) (args : CloneArgs)
        → Runs {K = K} {V = V}
            (On (Placed p))
            (On (But p))
            (On (Placed p))
            (copy_finish idle args p)
    unfolding copy_finish
    copy_finish-Runs idle args =
        ▹-Runs
          (Silent-goto (Placed p) (But p) (Placed-But p) _
            (bad_fork_cleanup_thread-sched args.flags p) (take_pid-Silent p idle args.flags))
          (▹-Runs
            (Silent-goto (Placed p) (But p) (Placed-But p) _
              (bad_fork_free_pid-sched idle args.flags p) (open_pidfd-Silent p args))
            (▹-Runs
              (Silent-goto (Placed p) (But p) (Placed-But p) _
                (bad_fork_put_pidfd-sched idle args.flags p) (store_pidfd-Silent p args))
              (▹-Runs (set_ids-Runs idle args.flags) (
                ▹-Runs
                  (Silent-goto (Placed p) (But p) (Placed-But p) _
                    (bad_fork_put_pidfd-sched idle args.flags p) (take-Silent args.flags p cgroup))
                  (▹-Runs (set_parent-Runs args) (
                    ▹-Runs
                      (Silent-goto (Placed p) (But p) (Placed-But p) _
                        (bad_fork_cancel_cgroup-sched idle args.flags p) (check_late-Silent p))
                      (Silent-Runs (Placed p) (But p) (Placed-But p) (publish-Silent p))))))))

    pub copy_process_if-Ends :
        (idle : Bool) (args : CloneArgs) (s : ForkState K V) (o : Outcome (Unit {0}))
        → Start p s.sched
        → Ends {K = K} {V = V} (On (But p)) (On (Placed p)) (copy_process_if idle args p s o)
    unfolding copy_process_if copy_all Ends
    copy_process_if-Ends idle args s (refuse e) b = Start-But p s.sched b
    copy_process_if-Ends idle args s (pass u) b =
        let r = ▹-Runs (copy_start-Runs args) (
          ▹-Runs (copy_setup-Runs args.flags)
            (▹-Runs (copy_resources-Runs args.flags) (copy_finish-Runs idle args))) in
        r.run s b
