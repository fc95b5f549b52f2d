-- ===== src/Examples/World.antt =====
-- A kernel around the scheduler in which some services may fail, and a task that forks in it.
use lottery_scheduler.Base.{
  ℕ, ◌+◌, ◌-◌, refl, Bool, true, false, none, some, arith, ◌==◌, if◌then◌else◌, pos,
}
use lottery_scheduler.Machine.{eagain, enomem}
use lottery_scheduler.Core.Setscheduler.Request.{refuse, pass}
use lottery_scheduler.Clone.World.{
  mm, files, fs, sighand, io_context, Service, delayacct, creds, Services, IsBalanced, ForkState,
  CloneArgs, same_service, indicator,
}
use lottery_scheduler.Examples.Machine.{kernel, machine}

-- What each service holds, and a free address for the next object, if it is free.
abbrev pub services : (broken : Service → Bool) → Services
services broken = record {
  World = Service → ℕ;
  origin = λ w. record { unkillable = false; other_pid_ns = false; other_time_ns = false };
  task_sigpending = λ w. false;
  fatal_signal_pending = λ w. false;
  over_nproc = λ w. false;
  max_threads = λ w. 100;
  in_exec = λ a w. false;
  ioprio_valid = λ a w. true;
  pidns_adding = λ p w. true;
  pid_nr = λ p w. 70 + p;
  pid_vnr = λ p w. 70 + p;
  fd_nr = λ p w. 3;
  put_user = λ n a w. (false, w);
  init_delayacct = λ p w v. w v + indicator (same_service delayacct v);
  acquire = λ x flags p w.
      if broken x then (some eagain, w) else (none, λ v. w v + indicator (same_service x v));
  release = λ x p w v. w v - indicator (same_service x v);
  duplicate = λ r p u w. (if u 900 == 0 then pass 900 else refuse enomem, w);
  put_object = λ r a u b. u b - indicator (a == b);
  link_object = λ a u b. u b + indicator (a == b);
}

pub services-IsBalanced : (broken : Service → Bool) → IsBalanced (services broken)
services-IsBalanced broken = record {
  held = λ v w. w v;
  acquired = λ x v flags p w e. ground (arith, e);
  not_acquired = λ x v flags p w c e. ground (arith, e);
  released = λ x v p w. refl;
  init_delayacct-held = λ v p w. refl;
  put_user-held = λ v n a w. refl;
  duplicate-held = λ v r p u w. refl;
  duplicate-fresh = λ r p u w a e. (λ z. ground (arith, e, z), ground (arith, e));
  put = λ r a u b. refl;
  linked = λ a u b. refl;
}

-- Task 1 has objects at 100 to 103 to itself and no io context; it forks into task 5.
abbrev pub fork_state : (broken : Service → Bool) → ForkState kernel (services broken)
fork_state broken = record {
  sched = machine;
  world = λ v. 1;
  users = λ a. if a == 900 then 0 else 1;
  resources = λ q r. elim r [ mm ↦ 100 | files ↦ 101 | fs ↦ 102 | sighand ↦ 103 | io_context ↦ 0 ];
  identity = λ q. record {
    pid = 70 + q;
    tgid = 70 + q;
    group_leader = q;
    real_parent = 0;
    exit_signal = pos 17;
    set_child_tid = 0;
    clear_child_tid = 0;
    vfork_done = false;
  };
  delayed = false;
  nr_threads = 6;
  total_forks = 0;
}

abbrev pub none_broken : Service → Bool
none_broken x = false

abbrev pub creds_broken : Service → Bool
creds_broken x = same_service creds x

-- All that can be is shared.
abbrev pub clone_args : CloneArgs
clone_args = record {
  flags = 0x8000_0f00;
  pidfd = 0;
  child_tid = 0;
  parent_tid = 0;
  exit_signal = pos 17;
}
