-- ===== src/Examples/Machine.antt =====
-- A machine with three tasks in the lottery queue, a blocked lottery task and an idle task.
use lottery_scheduler.Base.{
  negsuc, ℕ, suc, ◌+◌, ◌%◌, refl, true, false, none, some, [], ◌∷◌, arith, ◌&&◌, ◌==◌, leb,
  if◌then◌else◌, pos, u32_mod, ltb_ℤ,
}
use lottery_scheduler.Task.{Task, SchedClass, idle, fair, rt, lottery, class_eq, sched_lottery}
use lottery_scheduler.ListHead.{model}
use lottery_scheduler.Machine.{Kernel, nothing, State}
use lottery_scheduler.Lottery.Draw.{IsDrawable}
use lottery_scheduler.Core.System.{IsSystem, IsSystem-AllLottery}
use lottery_scheduler.Core.Running.{PicksQueued}

-- The outside state is the seed of the random numbers; no class but idle has tasks, and idle has
-- task 0.
abbrev pub kernel : Kernel
kernel = record {
  lists = model;
  Ext = ℕ;
  sched_clock = λ e. e;
  ktime_get_ns = λ e. e;
  get_random_u32 = λ e. (e % u32_mod, suc e);
  get_random_u32-lt = λ e. omega arith;
  update_rq_clock_pelt = λ delta e. e;
  sched_info_enqueue = λ p e. e;
  sched_info_dequeue = λ p e. e;
  psi_enqueue = λ p b e. e;
  psi_dequeue = λ p b e. e;
  nr_running = λ e. 0;
  h_nr_running = λ e. 0;
  pelt-counts = λ delta e. (refl, refl);
  sched_info_enqueue-counts = λ p e. (refl, refl);
  sched_info_dequeue-counts = λ p e. (refl, refl);
  psi_enqueue-counts = λ p b e. (refl, refl);
  psi_dequeue-counts = λ p b e. (refl, refl);
  ops = λ c. record {
    enqueue_task = λ m p flags e. e;
    dequeue_task = λ m p flags e. e;
    check_preempt_curr = λ m p flags e. (true, e);
    pick_next_task = λ m e. (if class_eq c idle then some 0 else none, e);
    put_prev_task = λ m p e. e;
    set_next_task = λ m p first e. e;
    task_tick = λ m p e. (false, e);
    switched_from = none;
    switched_to = λ m p e. (true, e);
    prio_changed = λ m p e. (false, e);
    update_curr = λ m p e. ((m p).se.sum_exec_runtime + 1, e);
    get_rr_interval = if class_eq c rt then some (λ m p e. 10) else none;
  };
  pick_next_task_fair = λ m prev e. (nothing, e);
  post_init_entity_util_avg = λ p e. e;
  sched_clock_tick = λ e. suc e;
  calc_global_load_tick = λ e. e;
  post_init-counts = λ p e. (refl, refl);
  max_rt_prio = 100;
  max_dl_prio = pos 0;
  dl_prio = λ prio. ltb_ℤ prio (pos 0);
  rt_prio = λ prio. ltb_ℤ prio (pos 100);
  nice_to_prio = λ nice. nice;
  prio_to_nice = λ prio. prio;
  min_nice = negsuc 19;
  max_nice = pos 19;
  rt_mutex_get_top_task = λ p e. none;
  capable_nice = λ e. true;
  rlimit_rtprio = λ p e. 0;
  nice_to_rlimit = λ nice. nice;
  rlimit_nice = λ p e. 0;
  euid = λ p e. 0;
  uid = λ p e. 0;
  security_task_setscheduler = λ p e. none;
  checkparam_dl = λ attr. true;
  dl_time_before = λ a b. false;
  sched_rr_timeslice = λ e. 100;
  init_dl_task = λ p e. e;
  init_entity_runnable_average = λ p e. e;
  task_fork = λ c m p e. e;
  dl_param_changed = λ p attr e. false;
  sched_dl_overflow = λ p policy attr e. (false, e);
  setparam_dl = λ p attr e. e;
  reweight_task = λ m p lw e. (lw, e);
  beyond_weight = λ i. 0;
  beyond_wmult = λ i. 0;
  signal_pending_state = λ state p e. false;
}

abbrev a_task : ℕ → SchedClass → (policy on_rq state : ℕ) → Task
a_task p c policy on_rq state = record {
  pid = p;
  state = state;
  on_rq = on_rq;
  flags = 0;
  sched_class = c;
  policy = policy;
  prio = pos 120;
  static_prio = pos 120;
  normal_prio = pos 120;
  rt_priority = 0;
  tickets = 5;
  sched_reset_on_fork = false;
  sched_contributes_to_load = false;
  in_iowait = false;
  nvcsw = 0;
  nivcsw = 0;
  need_resched = false;
  se = record {
    load = record { weight = 1048576; inv_weight = 4194304 };
    on_rq = 0;
    exec_start = 0;
    sum_exec_runtime = 0;
    vruntime = 0;
    prev_sum_exec_runtime = 0;
    nr_migrations = 0;
  };
  rt = record { timeout = 0; time_slice = 0; on_rq = 0; on_list = 0 };
  dl = record { deadline = 0; flags = 0; pi_se = p };
  pi_top_task = none;
}

-- Tasks 1 to 3 are queued, task 4 sleeps, task 0 is idle.
abbrev pub some_tasks : ℕ → Task
some_tasks q =
    if leb 1 q && leb q 3
    then a_task q lottery sched_lottery 1 0
    else if q == 4
    then a_task q lottery sched_lottery 0 1
    else if q == 0
    then a_task q idle 0 1 0
    else a_task q fair 0 0 0

abbrev pub machine_running : (curr : ℕ) → State kernel
machine_running curr = record {
  rq = record {
    ltr = record { nr_running = 3; total_tickets = 15 };
    curr = curr;
    idle = 0;
    stop = none;
    clock = 0;
    clock_task = 0;
    clock_update_flags = 0;
    nr_switches = 0;
    nr_uninterruptible = 0;
    nr_iowait = 0;
  };
  tasks = some_tasks;
  links = record { linked = 1 ∷ 2 ∷ 3 ∷ []; detached = []; stopped = false };
  log = [];
  preempt_need_resched = false;
  ext = 7;
}

-- Task 1 has the CPU; or the idle task has it.
abbrev pub machine : State kernel
machine = machine_running 1

abbrev pub idle_machine : State kernel
idle_machine = machine_running 0

pub machine-IsSystem : (curr : ℕ) → IsSystem (machine_running curr)
machine-IsSystem curr = record {
  coherent = record { linked = (refl, refl); once = refl; counted = refl; tallied = refl };
  enrolled = λ q. ground arith;
  by_policy = λ q. ground arith;
}

pub machine-IsDrawable : (curr : ℕ) → IsDrawable (machine_running curr)
machine-IsDrawable curr = record {
  coherent = (machine-IsSystem curr).coherent;
  all = IsSystem-AllLottery (machine-IsSystem curr);
  some_tickets = omega arith;
  fits = omega arith;
}

pub kernel-PicksQueued : PicksQueued kernel 0
kernel-PicksQueued = record {
  class_pick = λ c m e p other h. ground arith;
  idle_pick = λ m e. refl;
  fair_pick = λ m prev e p h. cc;
}
