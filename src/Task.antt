-- ===== src/Task.antt =====
-- Tasks: the part of `struct task_struct` (linux-5.15.180/include/linux/sched.h) that the scheduler
-- core and the lottery class read and write, the scheduling policies of
-- linux-5.15.180/include/uapi/linux/sched.h and the tests on them of kernel/sched/sched.h, and the
-- task states. A pointer to a task is a number; `Tasks` is the memory it points into.
mod Class
mod Entities
mod Memory
mod Flags
unfoldable pub use Class.*
unfoldable pub use Entities.*
unfoldable pub use Memory.*
unfoldable pub use Flags.*
