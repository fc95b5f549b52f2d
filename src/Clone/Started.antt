-- ===== src/Clone/Started.antt =====
-- What `kernel_clone` of kernel/fork.c ends with, and the system that it leaves.
use lottery_scheduler.Base.{
  ℕ, ◌≡◌, ◌≢◌, refl, ap, true, if◌then◌else◌, Bool, false, Option, none, some, arith, Bool-cases,
  inl, inr,
}
use lottery_scheduler.Task.{write, task_on_rq_queued}
use lottery_scheduler.Machine.{Kernel, State, Errno, einval, put_task}
use lottery_scheduler.Core.Wakes.{wake_up_new_task-IsSystem}
use lottery_scheduler.Core.System.{IsSystem}
use lottery_scheduler.Core.Forked.{IsSystemBut, IsSystem-But, put_task-IsSystemBut, But-IsSystem}
use lottery_scheduler.Clone.Flags.{check_flags}
use lottery_scheduler.Clone.World.{Services, ForkState, CloneArgs}
use lottery_scheduler.Clone.Process.{copy_process, copy_process_if}
use lottery_scheduler.Clone.KernelClone.{
  failed, cloned, fault, task_ptr, same_target, give_tickets, tell_parent, start_child,
  start_unless_err, clone_tail, kernel_clone,
}
use lottery_scheduler.Clone.Taking.{Ends}
use lottery_scheduler.Clone.Allowed.{cannot_share, check_flags-refused}
use lottery_scheduler.Clone.Quiet.{On, But, Placed}
use lottery_scheduler.Clone.Scheduled.{copy_process_if-Ends}

module _ {K : Kernel} (p : ℕ) where
  tickets-IsSystem :
      (x : State K) (n : ℕ)
      → IsSystem x
      → (x.tasks p).on_rq ≡ 0
      → IsSystem (put_task x p (record (x.tasks p) { tickets = n }))
        × (((put_task x p (record (x.tasks p) { tickets = n })).tasks p).on_rq ≡ 0)
  unfolding put_task write
  tickets-IsSystem x n i off =
      let t = record (x.tasks p) { tickets = n } in
      let but = put_task-IsSystemBut p t (IsSystem-But p i (λ e. omega (arith, e, off))) in
      (
        But-IsSystem p but (ground (arith, off)) (ground (arith, i.by_policy p)),
        ground (arith, off),
      )

module _ {K : Kernel} {V : Services} (args : CloneArgs) (p : ℕ) where
  -- For a child that is not queued, `copy_process` ends with a system without the child if it fails,
  -- and with a whole system and the child off the run queue if it succeeds.
  pub copy_process-IsSystem :
      (idle : Bool) (s : ForkState K V)
      → IsSystem s.sched
      → (s.sched.tasks p).on_rq ≢ task_on_rq_queued
      → Ends
          (λ t. IsSystemBut p t.sched)
          (λ t. IsSystem t.sched × ((t.sched.tasks p).on_rq ≡ 0))
          (copy_process idle args p s)
  unfolding copy_process
  copy_process-IsSystem idle s i off =
      copy_process_if-Ends p idle args s (check_flags args.flags (V.origin s.world)) (i, off)

  tail_none :
      (r : Option Errno × ForkState K V)
      → r.0 ≡ none
      → (clone_tail args p r).0 ≡ cloned (V.pid_vnr p r.1.world)
  unfolding clone_tail give_tickets task_ptr start_unless_err start_child
  tail_none (some c, t) eq = cc
  tail_none (none, t) eq = refl

  copy_process-refused :
      (s : ForkState K V)
      → cannot_share args.flags ≡ true
      → copy_process false args p s ≡ (some einval, s)
  unfolding copy_process copy_process_if
  copy_process-refused s bad =
      ap (copy_process_if false args p s) (check_flags-refused args.flags (V.origin s.world) bad)

  -- A clone that asks for a thread without shared signal handlers, for shared handlers without shared
  -- memory, or for a new mount or user namespace with a shared file system stores through a bad
  -- pointer, where the flags are meant to be refused: but if the pidfd and the pid of the child
  -- would go to one address, which is refused first.
  pub kernel_clone-refused :
      (s : ForkState K V)
      → cannot_share args.flags ≡ true
      → kernel_clone args p s ≡ (if same_target args then failed einval else fault, s)
  unfolding kernel_clone clone_tail give_tickets task_ptr
  kernel_clone-refused s bad = elim (Bool-cases (same_target args)) [
    | inl same ↦ rw same refl
    | inr fine ↦ rw fine (ap (clone_tail args p) (copy_process-refused s bad))
  ]

  -- If `copy_process` succeeds, `kernel_clone` returns the pid of the child.
  pub kernel_clone-cloned :
      (s : ForkState K V)
      → same_target args ≡ false
      → (copy_process false args p s).0 ≡ none
      → (kernel_clone args p s).0 ≡ cloned (V.pid_vnr p (copy_process false args p s).1.world)
  unfolding kernel_clone
  kernel_clone-cloned s fine eq = rw fine (tail_none (copy_process false args p s) eq)

  tell_parent-sched : (s : ForkState K V) → (tell_parent args p s).sched ≡ s.sched
  unfolding tell_parent
  tell_parent-sched s = ground arith

  tail-IsSystem :
      (r : Option Errno × ForkState K V) (nr : ℕ)
      → Ends (On (But p)) (On (Placed p)) r
      → (clone_tail args p r).0 ≡ cloned nr
      → IsSystem (clone_tail args p r).1.sched
  unfolding clone_tail give_tickets task_ptr start_unless_err start_child Ends
  tail-IsSystem (some c, t) nr h eq = cc
  tail-IsSystem (none, t) nr h eq =
      let ready = tickets-IsSystem p t.sched 5 h.0 h.1 in
      let told =
        tell_parent-sched
          (record t { sched = put_task t.sched p (record (t.sched.tasks p) { tickets = 5 }) }) in
      rw told (wake_up_new_task-IsSystem ready.0 p (λ e. omega (arith, e, ready.1)))

  -- A `kernel_clone` that returns a pid leaves a whole system, for a child that was not queued: the
  -- child is enqueued with its tickets.
  pub kernel_clone-IsSystem :
      (s : ForkState K V) (nr : ℕ)
      → IsSystem s.sched
      → (s.sched.tasks p).on_rq ≢ task_on_rq_queued
      → (kernel_clone args p s).0 ≡ cloned nr
      → IsSystem (kernel_clone args p s).1.sched
  unfolding kernel_clone
  kernel_clone-IsSystem s nr i off eq = elim (Bool-cases (same_target args)) [
    | inl same ↦ rw same i
    | inr fine ↦ rw fine (
        tail-IsSystem (copy_process false args p s) nr (copy_process-IsSystem false s i off)
          (ground (arith, eq, fine)))
  ]
