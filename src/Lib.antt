-- ===== src/Lib.antt =====
-- The lottery scheduling class of this kernel and the scheduler core around it.
--
-- Parts. linux-5.15.180/kernel/sched/lottery.c defines a scheduling class: a list of runnable tasks
-- with two counters, and a draw among their tickets. linux-5.15.180/kernel/sched/core.c calls it
-- through `p->sched_class`, as it calls the other classes: when a task is woken, blocks, is ticked,
-- picked or given another policy. The order in which the classes are asked is the order in which
-- `SCHED_DATA` of linux-5.15.180/include/asm-generic/vmlinux.lds.h lays them out.
--
-- Files.
--   Base        native numbers, words with their wrap-around, lists, integers, counting
--   Task        task_struct, policies, class order, states and flags: include/linux/sched.h,
--               include/uapi/linux/sched.h, kernel/sched/sched.h, vmlinux.lds.h
--   ListHead    the interface to include/linux/list.h with its documented laws, and a model of it
--   Machine     struct ltr_rq, the used part of struct rq, the state of one CPU, and `Kernel`: all
--               that the scheduler calls outside the repository
--   Lottery     Hooks: the functions of lottery.c. Queue: the counters against the list. Draw: what
--               is picked, against a book of tickets. Share: how often. Tick: how often it is preempted
--   Core        Resched, Clock, Hooks, Queue, Pick, Schedule, Wakeup, Prio, Nice, Setscheduler,
--               Boost (rt_mutex_setprio), Fork (sched_fork): the functions of core.c under their
--               own names (`schedule` is __schedule, `pick_next_task` is __pick_next_task,
--               `sched_setscheduler_attr` is __sched_setscheduler). Frame, Keeps, PickFrame,
--               Members: what the operations leave alone. System: the invariant. Running, Blocking,
--               Switch, Wakes, Requeue, Rewrites, PolicyChange, Granted, Boosted, Forked: its
--               proofs. Load: set_load_weight. Stays, Kept, Spared: what every operation leaves to the running and the idle task.
--               Reach: runs of all operations. Order, Undrawn: which class is asked. OnlyLottery: which
--               requests are granted. Told, Obeyed: what a granted request leaves. Runtime,
--               Charged: task_sched_runtime, also after runs
--   Clone       kernel/fork.c. Flags, Copy, Unwind, Steps, Process, KernelClone: copy_process from
--               its checks to its labels, under the names of the source, and kernel_clone; World:
--               the services of other files and the counted objects. Debts, Taking, Sharing,
--               Copied, Stages, Unwound, Runs, Balanced: what a half-made child holds. Silent,
--               Quiet, Scheduled, Started: what the scheduler sees. Allowed: the flags that
--               are refused
--   Uclamp      the utilization clamps of a run queue, a part of core.c by itself: Values and Rq
--               are the functions. Highest: the greatest bucket. Clamped, Left, Kept, Enqueued,
--               Dequeued, Refreshed: the counts of the buckets. Promise: runs of these
--   Syscall     the system calls around __sched_setscheduler in core.c. User: user memory, process
--               numbers and the security module. Attributes, Setters, Getters: the functions, a
--               system call under its name with `sys_`. ReadBack: setters against getters
--   Group       task groups and their bandwidth in core.c. Walk: walk_tg_tree_from with its labels;
--               Forest, Visit: against a recursion. Limits, Bandwidth, Quota: to_ratio,
--               tg_set_cfs_bandwidth, __cfs_schedulable (`cfs_schedulable`), setters and getters.
--               Walked, Schedulable, Changed, Refused: what one walk and one change leave. Accepted,
--               Unified: after the change on cgroup 1 and 2. ReadBack: setters against getters
--   Examples    the theorems at a small machine
--
-- State. A task pointer is a number and `State.tasks` the memory of tasks. `State.links` is the
-- contents of the list links, `State.ext` the state of all outside code, `State.log` the lines that
-- log_event prints. Operations are functions from state to state; a result of C is paired with it.
-- Unsigned fields wrap at their width (add32, sub32, add64). Where list_del follows pointers that an
-- earlier list_del has poisoned, the links are `faulted`: the kernel has stopped there.
--
-- The core invariant (`IsSystem`): the list of the lottery queue is linked and has no task twice, the
-- counters are its length and its sum of tickets modulo 2^32, the tasks in it are those of the
-- lottery class with on_rq set, and a task is of the lottery class exactly if its policy is
-- SCHED_LOTTERY.
-- A queue is drawable if it is coherent, its tasks have the lottery policy, and their tickets sum up
-- to more than 0 and less than 2^32.
--
-- A fork takes services one after the other. `ForkState` has the state of the scheduler, the counts of
-- the users of each shared object by its address, and `World`, the state of the services; the law
-- `IsBalanced` says that a service which fails takes nothing. A `goto` is `or_goto label step`, and
-- each label is a function that does its own cleanup and then calls the next label.
--
-- Bounds. Every loop of the modelled code but one runs over a list (the lottery queue, the six classes)
-- or down the buckets of a clamp. walk_tg_tree_from jumps between labels and has fuel; a tree of n
-- groups below its root takes 2n + 1 labels at most, which is `suc (labels children)`.
--
-- Not modelled: more than one CPU, and with it migration and balancing; CONFIG_SCHED_CORE,
-- CGROUP_SCHED outside Group, SCHED_DEBUG, SCHED_HRTICK and the accounting of irq and steal time; the calls of
-- Uclamp from enqueue_task and dequeue_task, since the lottery class leaves out `uclamp_enabled`;
-- locks, RCU, barriers and trace points, since each operation runs under the run queue's lock; the
-- other classes, list.h, random.h, printk and the pressure stall accounting, which are parameters
-- or have no effect on the state; of kernel/fork.c all but copy_process and what it calls there,
-- and kernel_clone; the benchmark programs.
pub mod Base
pub mod Task
pub mod ListHead
pub mod Machine
pub mod Core
pub mod Lottery
pub mod Clone
pub mod Uclamp
pub mod Syscall
pub mod Group
pub mod Examples
