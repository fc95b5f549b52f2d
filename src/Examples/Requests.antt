-- ===== src/Examples/Requests.antt =====
-- The theorems on `__sched_setscheduler` of kernel/sched/core.c at the small machine.
use lottery_scheduler.Base.{inl, ◌≡◌, refl, true, false, some, arith, pos}
use lottery_scheduler.Task.{sched_lottery, test_bits}
use mathlib.Core.Bool.{xor}
use lottery_scheduler.Machine.{Attr, Errno}
use lottery_scheduler.Core.Setscheduler.Request.{check_request}
use lottery_scheduler.Core.Setscheduler.Calls.{
  sched_setscheduler_attr, sched_set_fifo, sched_set_fifo_low,
}
use lottery_scheduler.Core.OnlyLottery.{
  check_request-lottery, sched_setscheduler_attr-other, sched_set_fifo-refused,
}
use lottery_scheduler.Core.System.{IsSystem}
use lottery_scheduler.Core.Granted.{sched_setscheduler_attr-IsSystem}
use lottery_scheduler.Examples.Machine.{machine, machine-IsSystem}

abbrev lottery_request : Attr
lottery_request = record { policy = 7; flags = 0; nice = pos 0; priority = 0 }

abbrev fifo_request : Attr
fifo_request = record { policy = 1; flags = 0; nice = pos 0; priority = 50 }

check_request-lottery_example :
    (lottery_request.policy ≡ sched_lottery) × (lottery_request.priority ≡ 0)
unfolding check_request test_bits xor
check_request-lottery_example = check_request-lottery machine 4 lottery_request true (7, false) refl

sched_setscheduler_attr-other_example :
    (e : Errno) × (sched_setscheduler_attr machine 4 fifo_request true true ≡ (some e, machine))
sched_setscheduler_attr-other_example =
    sched_setscheduler_attr-other machine 4 fifo_request true true refl (λ h. omega arith)

sched_set_fifo-refused_example :
    ((e : Errno) × (sched_set_fifo machine 4 ≡ (some e, machine)))
    × ((e : Errno) × (sched_set_fifo_low machine 4 ≡ (some e, machine)))
sched_set_fifo-refused_example = sched_set_fifo-refused machine 4

sched_setscheduler_attr-IsSystem_example :
    IsSystem (sched_setscheduler_attr machine 5 lottery_request true true).1
sched_setscheduler_attr-IsSystem_example =
    sched_setscheduler_attr-IsSystem (machine-IsSystem 1) 5 lottery_request true true (inl refl)
