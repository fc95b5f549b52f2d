-- ===== src/Task/Flags.antt =====
-- Flag words and state bits, with a test that stands for `x & mask`.
use Prim.Native.Nat.{bit_and}
use lottery_scheduler.Base.{ℕ, Bool, not, ◌==◌}

-- `(x & mask) != 0`
unfoldable pub test_bits : ℕ → ℕ → Bool
test_bits x mask = not (bit_and x mask == 0)

abbrev pub task_running : ℕ
task_running = 0x0000

abbrev pub task_interruptible : ℕ
task_interruptible = 0x0001

abbrev pub task_uninterruptible : ℕ
task_uninterruptible = 0x0002

abbrev pub task_waking : ℕ
task_waking = 0x0200

abbrev pub task_noload : ℕ
task_noload = 0x0400

abbrev pub task_new : ℕ
task_new = 0x0800

-- `TASK_NORMAL`, the states that `wake_up_process` wakes from.
abbrev pub task_normal : ℕ
task_normal = 0x0003

abbrev pub task_on_rq_queued : ℕ
task_on_rq_queued = 1

abbrev pub task_on_rq_migrating : ℕ
task_on_rq_migrating = 2

-- `DEQUEUE_*` and `ENQUEUE_*`, which share their values.
abbrev pub dequeue_sleep : ℕ
dequeue_sleep = 0x01

abbrev pub enqueue_wakeup : ℕ
enqueue_wakeup = 0x01

abbrev pub dequeue_save : ℕ
dequeue_save = 0x02

abbrev pub enqueue_restore : ℕ
enqueue_restore = 0x02

abbrev pub dequeue_move : ℕ
dequeue_move = 0x04

abbrev pub enqueue_noclock : ℕ
enqueue_noclock = 0x08
