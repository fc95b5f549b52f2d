-- ===== src/Machine.antt =====
-- The state of one CPU, and the interface to the kernel around the scheduler.
-- `Machine.Interface` names what the modelled code calls outside this repository: the other
-- scheduling classes, clocks, accounting and randomness. `Machine.Cpu` is `struct rq`
-- (linux-5.15.180/kernel/sched/sched.h) with the tasks, the links of the lottery queue, the lines
-- that `log_event` printed and the state of the outside code.
mod Interface
mod Cpu
unfoldable pub use Interface.*
unfoldable pub use Cpu.*
