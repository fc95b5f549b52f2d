-- ===== src/Clone/Runs.antt =====
-- The runs of `copy_process` of kernel/fork.c, stage by stage: what is held after each, and that an error restores all.
use lottery_scheduler.Base.{ℕ, ◌≡◌, refl, Bool, false}
use lottery_scheduler.Machine.{Kernel}
use lottery_scheduler.Clone.World.{
  creds, mempolicy, perf_event, audit, security, semundo, namespaces, thread, cgroup, Services,
  IsBalanced, ForkState, Step, CloneArgs, resource_index, ◌▹◌, or_goto,
}
use lottery_scheduler.Clone.Process.{copy_start, copy_setup, copy_resources, copy_finish, copy_all}
use lottery_scheduler.Clone.Debts.{owes_object}
use lottery_scheduler.Clone.Taking.{Ends, at_label-Ends, and_then-Ends, Half, take-Ends}
use lottery_scheduler.Clone.Copied.{
  copy_files-Ends, copy_fs-Ends, copy_sighand-Ends, copy_signal-Ends, copy_mm-Ends, copy_io-Ends,
}
use lottery_scheduler.Clone.Stages.{
  Fresh, collect_signals-Ends, dup_task_struct-Ends, check_limits-Ends, fork_scheduler-Ends,
  reset_task-Ends, store_pidfd-Ends, set_ids-Ends, set_parent-Ends, check_late-Ends, publish-Ends,
  take_pid-Ends, open_pidfd-Ends,
}
use lottery_scheduler.Clone.Unwound.{
  d_creds, d_semundo, d_thread, d_cgroup, Restored, fork_out-Restored, bad_fork_free-Restored,
  bad_fork_cleanup_count-Restored, bad_fork_cleanup_threadgroup_lock-Restored,
  bad_fork_cleanup_policy-Restored, bad_fork_cleanup_perf-Restored, bad_fork_cleanup_audit-Restored,
  bad_fork_cleanup_security-Restored, bad_fork_cleanup_semundo-Restored,
  bad_fork_cleanup_files-Restored, bad_fork_cleanup_fs-Restored, bad_fork_cleanup_sighand-Restored,
  bad_fork_cleanup_signal-Restored, bad_fork_cleanup_mm-Restored,
  bad_fork_cleanup_namespaces-Restored, bad_fork_cleanup_io-Restored,
  bad_fork_cleanup_thread-Restored, bad_fork_free_pid-Restored, bad_fork_put_pidfd-Restored,
  bad_fork_cancel_cgroup-Restored,
}

-- What a step ends with, from where it may start.
pub record Runs {K : Kernel} {V : Services} (pre bad good : ForkState K V → Type 0) (m : Step K V)
    : Type 0 where
  pub run : (s : ForkState K V) → pre s → Ends bad good (m s)

module _ {K : Kernel} {V : Services} where
  pub goto-Runs :
      {pre bad end good : ForkState K V → Type 0} {m : Step K V}
      (label : ForkState K V → ForkState K V)
      → ((s : ForkState K V) → bad s → end (label s))
      → Runs pre bad good m
      → Runs pre end good (or_goto label m)
  unfolding or_goto
  goto-Runs label undo r = record { run = λ s h. at_label-Ends _ _ _ undo _ (r.run s h) }

  pub ▹-Runs :
      {pre bad mid good : ForkState K V → Type 0} {m rest : Step K V}
      → Runs pre bad mid m
      → Runs mid bad good rest
      → Runs pre bad good (m ▹ rest)
  unfolding ◌▹◌
  ▹-Runs r after = record { run = λ s h. and_then-Ends _ _ _ (λ t g. after.run t g) _ (r.run s h) }

module _ {K : Kernel} {V : Services} (L : IsBalanced V) (p : ℕ) (s0 : ForkState K V) where
  copy_start-Runs :
      (args : CloneArgs)
      → Runs (Fresh L p s0) (Restored L p s0) (Half L p s0 0 d_creds) (copy_start args p)
  unfolding copy_start
  copy_start-Runs args =
      ▹-Runs
        (goto-Runs _ (λ s o. fork_out-Restored L p s0 o)
          (record { run = λ s h. collect_signals-Ends L p s0 args.flags h }))
        (▹-Runs
          (goto-Runs _ (λ s o. fork_out-Restored L p s0 o)
            (record { run = λ s h. dup_task_struct-Ends L p s0 args h }))
          (▹-Runs
            (goto-Runs _ (λ s o. bad_fork_free-Restored L p s0 o)
              (record { run = λ s h. take-Ends L p s0 creds args.flags h }))
            (goto-Runs _ (λ s o. bad_fork_cleanup_count-Restored L p s0 o)
              (record { run = λ s h. check_limits-Ends L p s0 h }))))

  copy_setup-Runs :
      (flags : ℕ)
      → Runs
          (Half L p s0 0 d_creds)
          (Restored L p s0)
          (Half L p s0 1 d_semundo)
          (copy_setup flags p)
  unfolding copy_setup owes_object resource_index
  copy_setup-Runs flags =
      ▹-Runs (record { run = λ s h. reset_task-Ends L p s0 (Restored L p s0) refl h })
        (▹-Runs
          (goto-Runs _ (λ s o. bad_fork_cleanup_threadgroup_lock-Restored L p s0 o)
            (record { run = λ s h. take-Ends L p s0 mempolicy flags h }))
          (▹-Runs
            (goto-Runs _ (λ s o. bad_fork_cleanup_policy-Restored L p s0 o)
              (record { run = λ s h. fork_scheduler-Ends L p s0 h }))
            (▹-Runs
              (goto-Runs _ (λ s o. bad_fork_cleanup_policy-Restored L p s0 o)
                (record { run = λ s h. take-Ends L p s0 perf_event flags h }))
              (▹-Runs
                (goto-Runs _ (λ s o. bad_fork_cleanup_perf-Restored L p s0 o)
                  (record { run = λ s h. take-Ends L p s0 audit flags h }))
                (▹-Runs
                  (goto-Runs _ (λ s o. bad_fork_cleanup_audit-Restored L p s0 o)
                    (record { run = λ s h. take-Ends L p s0 security flags h }))
                  ((goto-Runs _ (λ s o. bad_fork_cleanup_security-Restored L p s0 o)
                    (record { run = λ s h. take-Ends L p s0 semundo flags h }))))))))

  copy_resources-Runs :
      (flags : ℕ)
      → Runs
          (Half L p s0 1 d_semundo)
          (Restored L p s0)
          (Half L p s0 4 (d_thread flags))
          (copy_resources flags p)
  unfolding copy_resources owes_object resource_index
  copy_resources-Runs flags =
      ▹-Runs
        (goto-Runs _ (λ s o. bad_fork_cleanup_semundo-Restored L p s0 o)
          (record { run = λ s h. copy_files-Ends L p s0 flags refl h }))
        (▹-Runs
          (goto-Runs _ (λ s o. bad_fork_cleanup_files-Restored L p s0 o)
            (record { run = λ s h. copy_fs-Ends L p s0 flags refl h }))
          (▹-Runs
            (goto-Runs _ (λ s o. bad_fork_cleanup_fs-Restored L p s0 o)
              (record { run = λ s h. copy_sighand-Ends L p s0 flags refl h }))
            (▹-Runs
              (goto-Runs _ (λ s o. bad_fork_cleanup_sighand-Restored L p s0 o)
                (record { run = λ s h. copy_signal-Ends L p s0 flags h }))
              (▹-Runs
                (goto-Runs _ (λ s o. bad_fork_cleanup_signal-Restored L p s0 flags o)
                  (record { run = λ s h. copy_mm-Ends L p s0 flags refl h }))
                (▹-Runs
                  (goto-Runs _ (λ s o. bad_fork_cleanup_mm-Restored L p s0 flags o)
                    (record { run = λ s h. take-Ends L p s0 namespaces flags h }))
                  (▹-Runs
                    (goto-Runs _ (λ s o. bad_fork_cleanup_namespaces-Restored L p s0 flags o)
                      (record { run = λ s h. copy_io-Ends L p s0 flags refl h }))
                    ((goto-Runs _ (λ s o. bad_fork_cleanup_io-Restored L p s0 flags o)
                      (record { run = λ s h. take-Ends L p s0 thread flags h })))))))))

  copy_finish-Runs :
      (idle : Bool) (args : CloneArgs)
      → Runs
          (Half L p s0 4 (d_thread args.flags))
          (Restored L p s0)
          (λ t. Half L p s0 4 (d_cgroup idle args.flags) t × (t.delayed ≡ false))
          (copy_finish idle args p)
  unfolding copy_finish
  copy_finish-Runs idle args =
      ▹-Runs
        (goto-Runs _ (λ s o. bad_fork_cleanup_thread-Restored L p s0 args.flags o)
          (record { run = λ s h. take_pid-Ends L p s0 h idle args.flags }))
        (▹-Runs
          (goto-Runs _ (λ s o. bad_fork_free_pid-Restored L p s0 idle args.flags o)
            (record { run = λ s h. open_pidfd-Ends L p s0 h args }))
          (▹-Runs
            (goto-Runs _ (λ s o. bad_fork_put_pidfd-Restored L p s0 idle args.flags o)
              (record { run = λ s h. store_pidfd-Ends L p s0 h args }))
            (▹-Runs
              (record { run = λ s h. set_ids-Ends L p s0 h (Restored L p s0) idle args.flags })
              (▹-Runs
                (goto-Runs _ (λ s o. bad_fork_put_pidfd-Restored L p s0 idle args.flags o)
                  (record { run = λ s h. take-Ends L p s0 cgroup args.flags h }))
                (▹-Runs (record { run = λ s h. set_parent-Ends L p s0 h (Restored L p s0) args })
                  (▹-Runs
                    (goto-Runs _ (λ s o. bad_fork_cancel_cgroup-Restored L p s0 idle args.flags o)
                      (record { run = λ s h. check_late-Ends L p s0 h }))
                    ((record { run = λ s h. publish-Ends L p s0 h (Restored L p s0) }))))))))

  pub copy_all-Runs :
      (idle : Bool) (args : CloneArgs)
      → Runs
          (Fresh L p s0)
          (Restored L p s0)
          (λ t. Half L p s0 4 (d_cgroup idle args.flags) t × (t.delayed ≡ false))
          (copy_all idle args p)
  unfolding copy_all
  copy_all-Runs idle args = ▹-Runs (copy_start-Runs args) (
      ▹-Runs (copy_setup-Runs args.flags)
        (▹-Runs (copy_resources-Runs args.flags) (copy_finish-Runs idle args)))
