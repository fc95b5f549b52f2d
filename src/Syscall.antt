-- ===== src/Syscall.antt =====
-- The system calls on policies and parameters of linux-5.15.180/kernel/sched/core.c, and what they
-- need of user memory, process numbers and the security module.
pub mod User
pub mod Attributes
pub mod Setters
pub mod Getters
pub mod ReadBack
