-- ===== src/Examples/Success.antt =====
-- `copy_process` succeeds in the example: every step goes well with all shared.
use lottery_scheduler.Base.{◌≡◌, refl, false, Option, none, some, arith}
use lottery_scheduler.Machine.{Errno}
use lottery_scheduler.Core.Fork.{
  dup_task, sched_fork, sched_fork_setup, fork_params, fork_class, set_fork_class, reset_on_fork,
}
use lottery_scheduler.Machine.{put_task}
use lottery_scheduler.Task.{write, test_bits}
use lottery_scheduler.Clone.World.{
  Service, namespaces, thread, cgroup, Step, ForkState, point, and_then, ◌▹◌, or_goto, at_label,
}
use lottery_scheduler.Clone.Flags.{check_flags, both_bits}
use lottery_scheduler.Clone.Copy.{
  take, copy_files, copy_fs, copy_sighand, copy_signal, copy_mm, copy_io,
}
use lottery_scheduler.Clone.Steps.{
  collect_signals, duplicate_task, dup_into, dup_task_struct, check_limits, reset_task,
  fork_scheduler, open_pidfd, store_pidfd, take_pid, set_ids, set_parent, check_late, publish,
}
use lottery_scheduler.Clone.Process.{
  copy_start, copy_setup, copy_resources, copy_finish, copy_all, copy_process_if, copy_process,
}
use lottery_scheduler.Examples.Machine.{kernel}
use lottery_scheduler.Examples.World.{services, none_broken, fork_state, clone_args}

abbrev S : Type 0
S = ForkState kernel (services none_broken)

-- A step that goes well from any state.
record Well (m : Step kernel (services none_broken)) : Type 0 where
  none_from : (s : S) → (m s).0 ≡ none

and_then-none :
    (rest : Step kernel (services none_broken)) (r : Option Errno × S)
    → r.0 ≡ none
    → (rest r.1).0 ≡ none
    → (and_then rest r).0 ≡ none
unfolding and_then
and_then-none rest (none, s) e h = h
and_then-none rest (some c, s) e h = cc

at_label-none : (label : S → S) (r : Option Errno × S) → r.0 ≡ none → (at_label label r).0 ≡ none
unfolding at_label
at_label-none label (none, s) e = refl
at_label-none label (some c, s) e = cc

Well-then : {m rest : Step kernel (services none_broken)} → Well m → Well rest → Well (m ▹ rest)
unfolding ◌▹◌
Well-then {m} {rest} h k = record {
  none_from = λ s. and_then-none rest (m s) (h.none_from s) (k.none_from (m s).1);
}

Well-goto :
    {m : Step kernel (services none_broken)} (label : S → S) → Well m → Well (or_goto label m)
unfolding or_goto
Well-goto {m} label h = record { none_from = λ s. at_label-none label (m s) (h.none_from s) }

take-Well : (x : Service) → Well (take x clone_args.flags 5)
unfolding take
take-Well x = record { none_from = λ s. refl }

copy_files-Well : Well (copy_files clone_args.flags 5)
unfolding copy_files test_bits
copy_files-Well = record { none_from = λ s. ground arith }

copy_fs-Well : Well (copy_fs clone_args.flags 5)
unfolding copy_fs test_bits
copy_fs-Well = record { none_from = λ s. refl }

copy_sighand-Well : Well (copy_sighand clone_args.flags 5)
unfolding copy_sighand test_bits
copy_sighand-Well = record { none_from = λ s. refl }

copy_signal-Well : Well (copy_signal clone_args.flags 5)
unfolding copy_signal test_bits take
copy_signal-Well = record { none_from = λ s. refl }

copy_mm-Well : Well (copy_mm clone_args.flags 5)
unfolding copy_mm test_bits
copy_mm-Well = record { none_from = λ s. ground arith }

copy_io-Well : Well (copy_io clone_args.flags 5)
unfolding copy_io test_bits
copy_io-Well = record { none_from = λ s. ground arith }

take_pid-Well : Well (take_pid false clone_args.flags 5)
unfolding take_pid take
take_pid-Well = record { none_from = λ s. refl }

open_pidfd-Well : Well (open_pidfd clone_args 5)
unfolding open_pidfd test_bits
open_pidfd-Well = record { none_from = λ s. refl }

store_pidfd-Well : Well (store_pidfd clone_args 5)
unfolding store_pidfd test_bits
store_pidfd-Well = record { none_from = λ s. refl }

set_ids-Well : Well (set_ids false clone_args.flags 5)
unfolding set_ids
set_ids-Well = record { none_from = λ s. refl }

set_parent-Well : Well (set_parent clone_args 5)
unfolding set_parent
set_parent-Well = record { none_from = λ s. refl }

check_late-Well : Well (check_late 5)
unfolding check_late
check_late-Well = record { none_from = λ s. refl }

publish-Well : Well (publish 5)
unfolding publish
publish-Well = record { none_from = λ s. refl }

resources-Well : Well (copy_resources clone_args.flags 5)
unfolding copy_resources
resources-Well = Well-then (Well-goto _ copy_files-Well) (
    Well-then (Well-goto _ copy_fs-Well) (
      Well-then (Well-goto _ copy_sighand-Well) (
        Well-then (Well-goto _ copy_signal-Well) (
          Well-then (Well-goto _ copy_mm-Well) (
            Well-then (Well-goto _ (take-Well namespaces))
              (Well-then (Well-goto _ copy_io-Well) (Well-goto _ (take-Well thread))))))))

finish-Well : Well (copy_finish false clone_args 5)
unfolding copy_finish
finish-Well = Well-then (Well-goto _ take_pid-Well) (
    Well-then (Well-goto _ open_pidfd-Well) (
      Well-then (Well-goto _ store_pidfd-Well) (
        Well-then (set_ids-Well) (
          Well-then (Well-goto _ (take-Well cgroup)) (
            Well-then (set_parent-Well)
              (Well-then (Well-goto _ check_late-Well) (publish-Well)))))))

rest-Well : Well (copy_resources clone_args.flags 5 ▹ copy_finish false clone_args 5)
rest-Well = Well-then resources-Well finish-Well

abbrev started : S
started = (copy_start clone_args 5 (fork_state none_broken)).1

start_none : (copy_start clone_args 5 (fork_state none_broken)).0 ≡ none
unfolding copy_start ◌▹◌ or_goto at_label and_then collect_signals dup_task_struct dup_into
    duplicate_task take check_limits
start_none = refl

setup_none : (copy_setup clone_args.flags 5 started).0 ≡ none
unfolding copy_setup copy_start ◌▹◌ or_goto at_label and_then collect_signals dup_task_struct
    dup_into duplicate_task dup_task take check_limits reset_task fork_scheduler sched_fork
    sched_fork_setup fork_params fork_class set_fork_class reset_on_fork put_task write point
setup_none = refl

▹-none :
    (m rest : Step kernel (services none_broken)) (s : S)
    → (m s).0 ≡ none
    → (rest (m s).1).0 ≡ none
    → ((m ▹ rest) s).0 ≡ none
unfolding ◌▹◌
▹-none m rest s e h = and_then-none rest (m s) e h

pub none_broken-success : (copy_process false clone_args 5 (fork_state none_broken)).0 ≡ none
unfolding copy_process copy_process_if check_flags both_bits test_bits copy_all
none_broken-success = ▹-none (copy_start clone_args 5) _ (fork_state none_broken) start_none (
    ▹-none (copy_setup clone_args.flags 5) _ started setup_none
      (rest-Well.none_from (copy_setup clone_args.flags 5 started).1))
