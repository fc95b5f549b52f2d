-- ===== src/Examples/Fork.antt =====
-- The theorems on kernel/fork.c and on priority inheritance at the small machine.
use lottery_scheduler.Base.{◌≡◌, refl, false, some, arith}
use lottery_scheduler.Machine.{eagain}
use lottery_scheduler.Core.System.{IsSystem}
use lottery_scheduler.Core.Forked.{IsSystemBut}
use lottery_scheduler.Core.Boost.{rt_mutex_setprio}
use lottery_scheduler.Core.Boosted.{rt_mutex_setprio-IsSystem}
use lottery_scheduler.Clone.Flags.{check_flags, both_bits}
use lottery_scheduler.Task.{test_bits}
use lottery_scheduler.Clone.Allowed.{cannot_share}
use lottery_scheduler.Clone.World.{namespaces, ◌▹◌, or_goto, at_label, and_then, service_index}
use lottery_scheduler.Clone.Steps.{collect_signals, dup_task_struct, dup_into, duplicate_task}
use lottery_scheduler.Clone.Process.{copy_process, copy_process_if, copy_all, copy_start}
use lottery_scheduler.Clone.Copy.{take}
use lottery_scheduler.Clone.KernelClone.{kernel_clone, same_target, fault, cloned}
use lottery_scheduler.Clone.World.{CloneArgs}
use lottery_scheduler.Clone.Taking.{Ends}
use lottery_scheduler.Clone.Balanced.{
  AsBefore, HoldsChild, copy_process-AsBefore, copy_process-HoldsChild,
}
use lottery_scheduler.Clone.Started.{
  copy_process-IsSystem, kernel_clone-refused, kernel_clone-cloned, kernel_clone-IsSystem,
}
use lottery_scheduler.Examples.World.{
  services-IsBalanced, none_broken, creds_broken, fork_state, clone_args,
}
use lottery_scheduler.Examples.Success.{none_broken-success}
use lottery_scheduler.Examples.Machine.{machine, machine-IsSystem}

-- `copy_creds` fails, with the memory of the task taken.
creds_broken-error : (copy_process false clone_args 5 (fork_state creds_broken)).0 ≡ some eagain
unfolding copy_process copy_process_if check_flags both_bits test_bits copy_all copy_start ◌▹◌
    or_goto at_label and_then collect_signals dup_task_struct dup_into duplicate_task take
    service_index
creds_broken-error = refl

copy_process-AsBefore_example :
    AsBefore
      (services-IsBalanced creds_broken)
      false
      clone_args
      5
      (fork_state creds_broken)
      namespaces
      99
      (copy_process false clone_args 5 (fork_state creds_broken)).1
copy_process-AsBefore_example =
    copy_process-AsBefore (services-IsBalanced creds_broken) false clone_args 5
      (fork_state creds_broken) refl refl namespaces 99 eagain creds_broken-error

copy_process-HoldsChild_example :
    HoldsChild
      (services-IsBalanced none_broken)
      false
      clone_args
      5
      (fork_state none_broken)
      namespaces
      99
      (copy_process false clone_args 5 (fork_state none_broken)).1
copy_process-HoldsChild_example =
    copy_process-HoldsChild (services-IsBalanced none_broken) false clone_args 5
      (fork_state none_broken) refl refl namespaces 99 none_broken-success

copy_process-IsSystem_example :
    Ends
      (λ t. IsSystemBut 5 t.sched)
      (λ t. IsSystem t.sched × ((t.sched.tasks 5).on_rq ≡ 0))
      (copy_process false clone_args 5 (fork_state none_broken))
copy_process-IsSystem_example =
    copy_process-IsSystem clone_args 5 false (fork_state none_broken) (machine-IsSystem 1)
      (λ e. omega arith)

none_broken-cloned : (kernel_clone clone_args 5 (fork_state none_broken)).0 ≡ cloned 75
unfolding same_target test_bits
none_broken-cloned =
    kernel_clone-cloned clone_args 5 (fork_state none_broken) refl none_broken-success

kernel_clone-IsSystem_example :
    IsSystem (kernel_clone clone_args 5 (fork_state none_broken)).1.sched
kernel_clone-IsSystem_example =
    kernel_clone-IsSystem clone_args 5 (fork_state none_broken) 75 (machine-IsSystem 1)
      (λ e. omega arith) none_broken-cloned

rt_mutex_setprio-IsSystem_example : IsSystem (rt_mutex_setprio machine 2 (some 4))
rt_mutex_setprio-IsSystem_example = rt_mutex_setprio-IsSystem (machine-IsSystem 1) 2 (some 4)

-- CLONE_THREAD alone.
abbrev thread_args : CloneArgs
thread_args = record clone_args { flags = 0x1_0000 }

kernel_clone-refused_example :
    kernel_clone thread_args 5 (fork_state none_broken) ≡ (fault, fork_state none_broken)
unfolding same_target test_bits cannot_share both_bits
kernel_clone-refused_example = kernel_clone-refused thread_args 5 (fork_state none_broken) refl
