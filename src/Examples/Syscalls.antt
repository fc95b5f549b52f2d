-- ===== src/Examples/Syscalls.antt =====
-- The theorems on the system calls of kernel/sched/core.c at the small machine.
use Prim.Native.Nat.{bit_or}
use lottery_scheduler.Base.{ℕ, ◌≡◌, refl, true, none, some, pos, sub64}
use mathlib.Core.Bool.{xor}
use lottery_scheduler.Task.{test_bits}
use lottery_scheduler.Machine.{Attr}
use lottery_scheduler.Core.Clock.{update_rq_clock}
use lottery_scheduler.Core.Setscheduler.Calls.{sched_setscheduler_attr}
use lottery_scheduler.Core.Setscheduler.Request.{pass}
use lottery_scheduler.Syscall.User.{UserSpace, System, find_process_by_pid}
use lottery_scheduler.Syscall.Attributes.{sched_copy_attr}
use lottery_scheduler.Syscall.Setters.{sys_sched_setattr}
use lottery_scheduler.Syscall.Getters.{sys_sched_getscheduler, attr_of}
use lottery_scheduler.Syscall.ReadBack.{setattr-getscheduler}
use lottery_scheduler.Examples.Machine.{kernel, machine}

-- User memory is what was last written; a request for the lottery with SCHED_FLAG_RESET_ON_FORK
-- stands at every address.
abbrev user_space : UserSpace
user_space = record {
  World = ℕ;
  find_task_by_vpid = λ pid w. some pid;
  security_task_getscheduler = λ p w. none;
  security_task_setnice = λ p nice w. none;
  getparam_dl = λ t attr. attr;
  getparam_dl-policy = λ t attr. refl;
  page_size = 4096;
  size_ver0 = 48;
  size_ver1 = 56;
  attr_size = 56;
  read_param = λ param w. some w;
  write_param = λ param priority w. some priority;
  read_size = λ uattr w. some 48;
  write_size = λ uattr size w. size;
  copy_struct_from_user =
      λ uattr size w. pass (record { policy = 7; flags = 1; nice = pos 30; priority = 0 });
  access_ok = λ uattr size w. true;
  write_attr = λ uattr size attr w. some attr.policy;
}

abbrev system : System kernel user_space
system = record { sched = machine; world = 0 }

-- The nice level is clamped.
abbrev asked : Attr
asked = record { policy = 7; flags = 1; nice = pos 19; priority = 0 }

abbrev after : System kernel user_space
after = (sys_sched_setattr system (pos 5) 100 0).1

setattr-getscheduler_example :
    (sys_sched_getscheduler after (pos 5) ≡ pass (bit_or 7 0x4000_0000))
    × ((p : ℕ) × (find_process_by_pid system (pos 5) ≡ some p)
        × (find_process_by_pid after (pos 5) ≡ some p)
        × ((attr_of after p).policy ≡ 7))
unfolding sched_copy_attr sys_sched_setattr test_bits sched_setscheduler_attr xor update_rq_clock
    sub64
setattr-getscheduler_example =
    setattr-getscheduler system after (pos 5) 100 asked refl refl refl (λ p. refl) refl
