-- ===== src/Clone/Steps.antt =====
-- The statements of `copy_process` of kernel/fork.c, one step each, and `dup_task_struct`.
use lottery_scheduler.Base.{
  ℕ, ◌+◌, Bool, false, Option, none, some, not, ◌||◌, ◌==◌, leb, if◌then◌else◌, negsuc,
}
use lottery_scheduler.Task.{test_bits, write}
use lottery_scheduler.Machine.{
  Kernel, put_task, Errno, eagain, enomem, efault, eintr, erestartnointr,
}
use lottery_scheduler.Core.Fork.{dup_task, sched_fork, sched_cgroup_fork}
use lottery_scheduler.Clone.Flags.{
  clone_thread, clone_parent, clone_pidfd, clone_child_settid, clone_child_cleartid,
}
use lottery_scheduler.Clone.World.{
  io_context, task_struct, pid, fd, pidfile, Services, ForkState, CloneArgs, current, with_world,
  point, write_at, ◌▹◌, or_goto, at_label,
}
use lottery_scheduler.Clone.Copy.{take}
use lottery_scheduler.Clone.Unwind.{give}

module _ {K : Kernel} {V : Services} where
  -- Signals to several processes are held back until the fork is done; any that came before it is
  -- delivered first.
  unfoldable pub collect_signals : (flags : ℕ) → ForkState K V → Option Errno × ForkState K V
  collect_signals flags s =
      let s' = record s { delayed = not (test_bits flags clone_thread) } in
      (if V.task_sigpending s.world then some erestartnointr else none, s')

  -- `*tsk = *orig`, and the two addresses for the child's tid
  unfoldable pub duplicate_task : CloneArgs → (p : ℕ) → ForkState K V → ForkState K V
  unfolding write_at
  duplicate_task args p s =
      let parent = current s in
      record s {
        sched = dup_task s.sched p;
        resources = write_at s.resources p (s.resources parent);
        identity = write_at s.identity p (record (s.identity parent) {
          set_child_tid = if test_bits args.flags clone_child_settid then args.child_tid else 0;
          clear_child_tid = if test_bits args.flags clone_child_cleartid then args.child_tid else 0;
        });
      }

  -- No memory is the only error that the caller sees.
  unfoldable pub dup_into :
      CloneArgs → (p : ℕ) → ForkState K V → Option Errno × V.World → Option Errno × ForkState K V
  unfolding duplicate_task
  dup_into args p s (some e, w) = (some enomem, with_world s w)
  dup_into args p s (none, w) = (none, duplicate_task args p (with_world s w))

  unfoldable pub dup_task_struct :
      CloneArgs → (p : ℕ) → ForkState K V → Option Errno × ForkState K V
  unfolding dup_into
  dup_task_struct args p s = dup_into args p s (V.acquire task_struct args.flags p s.world)

  unfoldable pub check_limits : ForkState K V → Option Errno × ForkState K V
  check_limits s =
      if V.over_nproc s.world || leb (V.max_threads s.world) s.nr_threads
      then (some eagain, s)
      else (none, s)

  unfoldable pub reset_task : (p : ℕ) → ForkState K V → Option Errno × ForkState K V
  unfolding point write_at
  reset_task p s =
      let s' = record s {
        world = V.init_delayacct p s.world;
        identity = write_at s.identity p (record (s.identity p) { vfork_done = false });
      } in
      (none, point s' p io_context 0)

  unfoldable pub fork_scheduler : (p : ℕ) → ForkState K V → Option Errno × ForkState K V
  unfolding sched_fork
  fork_scheduler p s = let r = sched_fork s.sched p in (r.0, record s { sched = r.1 })

  -- The descriptor and its file; a file that fails puts the descriptor back.
  unfoldable pub open_pidfd : CloneArgs → (p : ℕ) → ForkState K V → Option Errno × ForkState K V
  unfolding take give ◌▹◌ or_goto at_label
  open_pidfd args p s =
      if test_bits args.flags clone_pidfd
      then (take fd args.flags p ▹ or_goto (give fd p) (take pidfile args.flags p)) s
      else (none, s)

  -- `put_user(pidfd, args->pidfd)`
  unfoldable pub store_pidfd : CloneArgs → (p : ℕ) → ForkState K V → Option Errno × ForkState K V
  store_pidfd args p s =
      if test_bits args.flags clone_pidfd
      then (let r = V.put_user (V.fd_nr p s.world) args.pidfd s.world in
          (if r.0 then some efault else none, with_world s r.1))
      else (none, s)

  unfoldable pub take_pid : Bool → (flags p : ℕ) → ForkState K V → Option Errno × ForkState K V
  unfolding take
  take_pid idle flags p s = if idle then (none, s) else take pid flags p s

  -- The pid, which log_event prints, the thread group and its leader.
  unfoldable pub set_ids : Bool → (flags p : ℕ) → ForkState K V → Option Errno × ForkState K V
  unfolding write_at put_task write
  set_ids idle flags p s =
      let nr : ℕ = if idle then 0 else V.pid_nr p s.world in
      let leader = (s.identity (current s)).group_leader in
      let ids = record (s.identity p) { pid = nr } in
      (
        none,
        record s {
          sched = put_task s.sched p (record (s.sched.tasks p) { pid = nr });
          identity = write_at s.identity p (
              if test_bits flags clone_thread
              then record ids { group_leader = leader; tgid = (s.identity (current s)).tgid }
              else record ids { group_leader = p; tgid = nr });
        },
      )

  -- `sched_cgroup_fork`, and the parent with the signal it gets when the child exits.
  unfoldable pub set_parent : CloneArgs → (p : ℕ) → ForkState K V → Option Errno × ForkState K V
  unfolding write_at
  set_parent args p s =
      let me = s.identity (current s) in
      let child = s.identity p in
      (
        none,
        record s {
          sched = sched_cgroup_fork s.sched p;
          identity = write_at s.identity p (
              if test_bits args.flags clone_thread
              then record child { real_parent = me.real_parent; exit_signal = negsuc 0 }
              else if test_bits args.flags clone_parent
              then record child {
                real_parent = me.real_parent;
                exit_signal = (s.identity me.group_leader).exit_signal;
              }
              else record child { real_parent = current s; exit_signal = args.exit_signal });
        },
      )

  -- The pid namespace that dies, and the signal that ends the parent.
  unfoldable pub check_late : (p : ℕ) → ForkState K V → Option Errno × ForkState K V
  check_late p s =
      if not (V.pidns_adding p s.world)
      then (some enomem, s)
      else if V.fatal_signal_pending s.world
      then (some eintr, s)
      else (none, s)

  -- The child is counted, and the signals held back are let go.
  unfoldable pub publish : (p : ℕ) → ForkState K V → Option Errno × ForkState K V
  publish p s = (
    none,
    record s {
      nr_threads = if (s.identity p).pid == 0 then s.nr_threads else s.nr_threads + 1;
      total_forks = s.total_forks + 1;
      delayed = false;
    },
  )
