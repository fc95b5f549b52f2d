-- ===== src/Clone.antt =====
-- `copy_process` and `kernel_clone` of linux-5.15.180/kernel/fork.c.
pub mod Flags
pub mod World
pub mod Copy
pub mod Unwind
pub mod Steps
pub mod Process
pub mod KernelClone
pub mod Debts
pub mod Taking
pub mod Sharing
pub mod Copied
pub mod Unwound
pub mod Stages
pub mod Runs
pub mod Balanced
pub mod Silent
pub mod Quiet
pub mod Scheduled
pub mod Started
pub mod Allowed
