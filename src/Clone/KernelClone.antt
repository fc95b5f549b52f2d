-- ===== src/Clone/KernelClone.antt =====
-- `kernel_clone` of kernel/fork.c.
use lottery_scheduler.Base.{ℕ, Bool, true, false, Option, none, some, ◌&&◌, ◌==◌, if◌then◌else◌}
use lottery_scheduler.Task.{test_bits, write}
use lottery_scheduler.Machine.{Kernel, Errno, einval, put_task}
use lottery_scheduler.Core.Wakeup.{wake_up_new_task}
use lottery_scheduler.Core.Setscheduler.Request.{Outcome, refuse, pass}
use lottery_scheduler.Clone.Flags.{clone_pidfd, clone_parent_settid, clone_vfork}
use lottery_scheduler.Clone.World.{Services, ForkState, CloneArgs, with_world, write_at}
use lottery_scheduler.Clone.Process.{copy_process}

-- What the call ends with: an error code, the pid of the child, or a store through a bad pointer.
pub data CloneResult : Type 0 where
  failed : Errno → CloneResult
  cloned : ℕ → CloneResult
  fault : CloneResult

-- What `copy_process` returns: a task or `ERR_PTR(-e)`.
unfoldable pub task_ptr : (p : ℕ) → Option Errno → Outcome ℕ
task_ptr p none = pass p
task_ptr p (some e) = refuse e

-- The first check: the pidfd and the pid of the child would go to one address.
unfoldable pub same_target : CloneArgs → Bool
same_target args =
    test_bits args.flags clone_pidfd
    && (test_bits args.flags clone_parent_settid && args.pidfd == args.parent_tid)

module _ {K : Kernel} {V : Services} where
  -- `p->ltr.tickets = 5`: no task lies at an error pointer.
  unfoldable pub give_tickets : Outcome ℕ → ForkState K V → Option (ForkState K V)
  unfolding put_task write
  give_tickets (refuse e) s = none
  give_tickets (pass p) s =
      some (record s { sched = put_task s.sched p (record (s.sched.tasks p) { tickets = 5 }) })

  -- The pid goes to the parent, and a `vfork` prepares to wait.
  unfoldable pub tell_parent : CloneArgs → (p : ℕ) → ForkState K V → ForkState K V
  unfolding write_at
  tell_parent args p s =
      let told =
        if test_bits args.flags clone_parent_settid
        then with_world s (V.put_user (V.pid_vnr p s.world) args.parent_tid s.world).1
        else s in
      if test_bits args.flags clone_vfork
      then record told {
        identity = write_at told.identity p (record (told.identity p) { vfork_done = true });
      }
      else told

  unfoldable pub start_child : CloneArgs → (p : ℕ) → ForkState K V → CloneResult × ForkState K V
  unfolding tell_parent
  start_child args p s =
      let t = tell_parent args p s in
      (cloned (V.pid_vnr p s.world), record t { sched = wake_up_new_task t.sched p })

  -- `if (IS_ERR(p)) return PTR_ERR(p);` and what comes after it
  unfoldable pub start_unless_err :
      CloneArgs → Outcome ℕ → ForkState K V → CloneResult × ForkState K V
  unfolding start_child
  start_unless_err args (refuse e) s = (failed e, s)
  start_unless_err args (pass p) s = start_child args p s

  unfoldable pub clone_tail :
      CloneArgs → (p : ℕ) → Option Errno × ForkState K V → CloneResult × ForkState K V
  unfolding give_tickets start_unless_err task_ptr
  clone_tail args p (r, s) =
      elim (give_tickets (task_ptr p r) s) as (λ _. CloneResult × ForkState K V) [
        | none ↦ (fault, s)
        | some s' ↦ start_unless_err args (task_ptr p r) s'
      ]

  unfoldable pub kernel_clone : CloneArgs → (p : ℕ) → ForkState K V → CloneResult × ForkState K V
  unfolding clone_tail copy_process same_target
  kernel_clone args p s =
      if same_target args
      then (failed einval, s)
      else clone_tail args p (copy_process false args p s)
