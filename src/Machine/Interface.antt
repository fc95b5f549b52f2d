-- ===== src/Machine/Interface.antt =====
-- What the scheduler calls outside this repository.
use lottery_scheduler.Base.{ℕ, ℤ, ◌<◌, ◌≡◌, Bool, Option, u32_mod}
use lottery_scheduler.Task.{SchedClass, Tasks, LoadWeight}
use lottery_scheduler.ListHead.{ListApi}

-- The hooks of a `struct sched_class` other than `lottery_sched_class`: kernel/sched/fair.c, rt.c,
-- deadline.c, stop_task.c, idle.c. They keep their queues in the outside state. A hook that may call
-- `resched_curr(rq)` says whether it does; `switched_from` and `get_rr_interval` are left out by some
-- classes. `update_curr` brings the account of the running task up to date and answers its new
-- `se.sum_exec_runtime`.
pub record ClassOps (Ext : Type 0) : Type 0 where
  pub enqueue_task : Tasks → (p flags : ℕ) → Ext → Ext
  pub dequeue_task : Tasks → (p flags : ℕ) → Ext → Ext
  pub check_preempt_curr : Tasks → (p flags : ℕ) → Ext → Bool × Ext
  pub pick_next_task : Tasks → Ext → Option ℕ × Ext
  pub put_prev_task : Tasks → (p : ℕ) → Ext → Ext
  pub set_next_task : Tasks → (p : ℕ) (first : Bool) → Ext → Ext
  pub task_tick : Tasks → (p : ℕ) → Ext → Bool × Ext
  pub switched_from : Option (Tasks → (p : ℕ) → Ext → Bool × Ext)
  pub switched_to : Tasks → (p : ℕ) → Ext → Bool × Ext
  pub prio_changed : Tasks → (p : ℕ) → Ext → Bool × Ext
  pub update_curr : Tasks → (p : ℕ) → Ext → ℕ × Ext
  pub get_rr_interval : Option (Tasks → (p : ℕ) → Ext → ℕ)

-- What `pick_next_task_fair` returns.
pub data FairPick : Type 0 where
  nothing : FairPick
  retry_task : FairPick
  task : ℕ → FairPick

-- The error codes of the modelled system calls.
pub data Errno : Type 0 where
  einval eperm ebusy eagain esrch efault eopnotsupp enomem eintr erestartnointr e2big : Errno

-- `struct sched_attr`: `policy` is the 32-bit pattern of an `int`.
pub record Attr : Type 0 where
  pub policy : ℕ
  pub flags : ℕ
  pub nice : ℤ
  pub priority : ℕ

abbrev pub SameCounts : {A : Type 0} → (A → ℕ) → (A → ℕ) → A → A → Type 0
SameCounts f g e e' = (f e' ≡ f e) × (g e' ≡ g e)

pub record Kernel : Type 1 where
  pub lists : ListApi
  -- the state of all outside code
  pub Ext : Type 0
  -- clock readings in nanoseconds
  pub sched_clock : Ext → ℕ
  pub ktime_get_ns : Ext → ℕ
  -- four random bytes, as an `unsigned int`
  pub get_random_u32 : Ext → ℕ × Ext
  pub get_random_u32-lt : (e : Ext) → (get_random_u32 e).0 < u32_mod
  -- accounting: pelt.h and stats.h
  pub update_rq_clock_pelt : (delta : ℕ) → Ext → Ext
  pub sched_info_enqueue : (p : ℕ) → Ext → Ext
  pub sched_info_dequeue : (p : ℕ) → Ext → Ext
  pub psi_enqueue : (p : ℕ) (wakeup : Bool) → Ext → Ext
  pub psi_dequeue : (p : ℕ) (sleep : Bool) → Ext → Ext
  -- `rq->nr_running` and `rq->cfs.h_nr_running`, which the other classes count
  pub nr_running : Ext → ℕ
  pub h_nr_running : Ext → ℕ
  -- The accounting leaves these two counts alone.
  pub pelt-counts :
      (delta : ℕ) (e : Ext) → SameCounts nr_running h_nr_running e (update_rq_clock_pelt delta e)
  pub sched_info_enqueue-counts :
      (p : ℕ) (e : Ext) → SameCounts nr_running h_nr_running e (sched_info_enqueue p e)
  pub sched_info_dequeue-counts :
      (p : ℕ) (e : Ext) → SameCounts nr_running h_nr_running e (sched_info_dequeue p e)
  pub psi_enqueue-counts :
      (p : ℕ) (b : Bool) (e : Ext) → SameCounts nr_running h_nr_running e (psi_enqueue p b e)
  pub psi_dequeue-counts :
      (p : ℕ) (b : Bool) (e : Ext) → SameCounts nr_running h_nr_running e (psi_dequeue p b e)
  pub ops : SchedClass → ClassOps Ext
  pub pick_next_task_fair : Tasks → (prev : ℕ) → Ext → FairPick × Ext
  -- fair.c, and what `scheduler_tick` calls before and after the class
  pub post_init_entity_util_avg : (p : ℕ) → Ext → Ext
  pub sched_clock_tick : Ext → Ext
  pub calc_global_load_tick : Ext → Ext
  pub post_init-counts :
      (p : ℕ) (e : Ext) → SameCounts nr_running h_nr_running e (post_init_entity_util_avg p e)
  -- priorities: include/linux/sched/prio.h, rt.h and deadline.h
  pub max_rt_prio : ℕ
  pub max_dl_prio : ℤ
  pub dl_prio : ℤ → Bool
  pub rt_prio : ℤ → Bool
  pub nice_to_prio : ℤ → ℤ
  pub prio_to_nice : ℤ → ℤ
  pub min_nice : ℤ
  pub max_nice : ℤ
  -- `rt_mutex_get_top_task(p)`, and a task's priority as the mutex code boosts it
  pub rt_mutex_get_top_task : (p : ℕ) → Ext → Option ℕ
  -- permissions: capable(CAP_SYS_NICE), task_rlimit(p, RLIMIT_RTPRIO), task_rlimit(p, RLIMIT_NICE),
  -- the user numbers in the credentials of a task, and what the security module answers
  pub capable_nice : Ext → Bool
  pub rlimit_rtprio : (p : ℕ) → Ext → ℕ
  pub nice_to_rlimit : ℤ → ℤ
  pub rlimit_nice : (p : ℕ) → Ext → ℕ
  pub euid : (p : ℕ) → Ext → ℕ
  pub uid : (p : ℕ) → Ext → ℕ
  pub security_task_setscheduler : (p : ℕ) → Ext → Option Errno
  -- deadline parameters: kernel/sched/deadline.c
  pub checkparam_dl : Attr → Bool
  -- include/linux/sched/deadline.h: the wrapping comparison of two times
  pub dl_time_before : ℕ → ℕ → Bool
  -- what a new task gets: kernel/sched/rt.c, deadline.c (the two timers and `__dl_clear_params`),
  -- fair.c, and the hook `task_fork` of the classes
  pub sched_rr_timeslice : Ext → ℕ
  pub init_dl_task : (p : ℕ) → Ext → Ext
  pub init_entity_runnable_average : (p : ℕ) → Ext → Ext
  pub task_fork : SchedClass → Tasks → (p : ℕ) → Ext → Ext
  pub dl_param_changed : (p : ℕ) → Attr → Ext → Bool
  pub sched_dl_overflow : (p policy : ℕ) → Attr → Ext → Bool × Ext
  pub setparam_dl : (p : ℕ) → Attr → Ext → Ext
  -- kernel/sched/fair.c: `reweight_task(p, &lw)`, with the `p->se.load` that it leaves
  pub reweight_task : Tasks → (p : ℕ) → LoadWeight → Ext → LoadWeight × Ext
  -- what lies outside the tables of weights, at an index that is no priority
  pub beyond_weight : ℤ → ℕ
  pub beyond_wmult : ℤ → ℕ
  -- `signal_pending_state(state, p)`
  pub signal_pending_state : (state p : ℕ) → Ext → Bool
