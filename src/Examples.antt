-- ===== src/Examples.antt =====
-- Runs of the models of kernel/sched/lottery.c, core.c and kernel/fork.c on one small machine.
pub mod Machine
pub mod Queue
pub mod Core
pub mod Requests
pub mod World
pub mod Success
pub mod Fork
pub mod Clamps
mod Runs
mod Syscalls
mod Groups
