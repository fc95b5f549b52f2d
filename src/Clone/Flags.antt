-- ===== src/Clone/Flags.antt =====
-- The flags of `clone` of include/uapi/linux/sched.h, and what the start of `copy_process` of
-- kernel/fork.c checks of them.
use Prim.Native.Nat.{bit_and, bit_or}
use lottery_scheduler.Base.{ℕ, Bool, ◌&&◌, ◌||◌, not, ◌==◌}
use lottery_scheduler.Task.{test_bits}
use lottery_scheduler.Machine.{einval}
use lottery_scheduler.Core.Setscheduler.Request.{Outcome, refuse_if, ◌>>◌}

abbrev pub clone_vm : ℕ
clone_vm = 0x100

abbrev pub clone_fs : ℕ
clone_fs = 0x200

abbrev pub clone_files : ℕ
clone_files = 0x400

abbrev pub clone_sighand : ℕ
clone_sighand = 0x800

abbrev pub clone_pidfd : ℕ
clone_pidfd = 0x1000

abbrev pub clone_vfork : ℕ
clone_vfork = 0x4000

abbrev pub clone_parent : ℕ
clone_parent = 0x8000

abbrev pub clone_thread : ℕ
clone_thread = 0x10000

abbrev pub clone_newns : ℕ
clone_newns = 0x20000

abbrev pub clone_parent_settid : ℕ
clone_parent_settid = 0x100000

abbrev pub clone_child_cleartid : ℕ
clone_child_cleartid = 0x200000

abbrev pub clone_detached : ℕ
clone_detached = 0x400000

abbrev pub clone_child_settid : ℕ
clone_child_settid = 0x1000000

abbrev pub clone_newuser : ℕ
clone_newuser = 0x10000000

abbrev pub clone_newpid : ℕ
clone_newpid = 0x20000000

abbrev pub clone_io : ℕ
clone_io = 0x80000000

-- What the checks read of `current` beside the flags: `signal->flags & SIGNAL_UNKILLABLE`, whether
-- its children get another pid namespace, and whether they get another time namespace.
pub record Origin : Type 0 where
  pub unkillable : Bool
  pub other_pid_ns : Bool
  pub other_time_ns : Bool

-- `(flags & (a | b)) == (a | b)`
unfoldable pub both_bits : (flags a b : ℕ) → Bool
both_bits flags a b = bit_and flags (bit_or a b) == bit_or a b

-- The checks that come before anything is changed, in the order of the source.
unfoldable pub check_flags : (flags : ℕ) → Origin → Outcome (Unit {0})
unfolding both_bits
check_flags flags o =
    refuse_if (both_bits flags clone_newns clone_fs) einval
    >> refuse_if (both_bits flags clone_newuser clone_fs) einval
    >> refuse_if (test_bits flags clone_thread && not (test_bits flags clone_sighand)) einval
    >> refuse_if (test_bits flags clone_sighand && not (test_bits flags clone_vm)) einval
    >> refuse_if (test_bits flags clone_parent && o.unkillable) einval
    >> refuse_if
        (test_bits flags clone_thread
          && (test_bits flags (bit_or clone_newuser clone_newpid) || o.other_pid_ns))
        einval
    >> refuse_if (test_bits flags (bit_or clone_thread clone_vm) && o.other_time_ns) einval
    >> refuse_if
        (test_bits flags clone_pidfd && test_bits flags (bit_or clone_detached clone_thread)) einval
