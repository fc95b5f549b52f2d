-- ===== src/Clone/Allowed.antt =====
-- Flags that `copy_process` of kernel/fork.c has to refuse, whoever the caller is.
use lottery_scheduler.Base.{ℕ, ◌≡◌, Bool, true, arith, ◌&&◌, ◌||◌, not}
use lottery_scheduler.Task.{test_bits}
use lottery_scheduler.Machine.{einval}
use lottery_scheduler.Core.Setscheduler.Request.{refuse}
use lottery_scheduler.Clone.Flags.{
  Origin, check_flags, both_bits, clone_vm, clone_sighand, clone_thread, clone_newns, clone_newuser,
  clone_fs,
}

-- A thread shares the signal handlers, shared handlers want shared memory, and a new mount or user
-- namespace wants a file system of its own.
unfoldable pub cannot_share : (flags : ℕ) → Bool
unfolding both_bits
cannot_share flags =
    test_bits flags clone_thread && not (test_bits flags clone_sighand)
    || (test_bits flags clone_sighand && not (test_bits flags clone_vm)
        || (both_bits flags clone_newns clone_fs || both_bits flags clone_newuser clone_fs))

pub check_flags-refused :
    (flags : ℕ) (o : Origin) → cannot_share flags ≡ true → check_flags flags o ≡ refuse einval
unfolding check_flags cannot_share both_bits
check_flags-refused flags o bad = ground (arith, bad)
