-- ===== src/Core/Fork.antt =====
-- `sched_fork`, `__sched_fork` and `sched_cgroup_fork` of kernel/sched/core.c, and the copy of the
-- parent that `dup_task_struct` of linux-5.15.180/kernel/fork.c makes.
use lottery_scheduler.Base.{ℕ, false, Option, none, some, ◌||◌, if◌then◌else◌, pos, ltb_ℤ}
use lottery_scheduler.Task.{
  Task, SchedClass, fair, rt, lottery, rt_policy, dl_policy, ltr_policy, sched_normal, task_new,
  write,
}
use lottery_scheduler.Core.Hooks.{is_lottery}
use lottery_scheduler.Core.Load.{set_load_weight}
use lottery_scheduler.Machine.{Kernel, Errno, eagain, State, put_task, with_ext}

module _ (K : Kernel) where
  -- `sched_reset_on_fork`: the default policy and priority for the child.
  unfoldable pub reset_on_fork : Task → Task
  reset_on_fork t =
      let t' =
        if dl_policy t.policy || rt_policy t.policy
        then record t {
          policy = sched_normal;
          static_prio = K.nice_to_prio (pos 0);
          rt_priority = 0;
        }
        else if ltb_ℤ (K.prio_to_nice t.static_prio) (pos 0)
        then record t { static_prio = K.nice_to_prio (pos 0) }
        else t in
      record t' { prio = t'.static_prio; normal_prio = t'.static_prio; sched_reset_on_fork = false }

  -- The class of the child, none for -EAGAIN.
  unfoldable pub fork_class : Task → Option SchedClass
  fork_class t =
      if ltr_policy t.policy
      then some lottery
      else if K.dl_prio t.prio
      then none
      else if K.rt_prio t.prio
      then some rt
      else some fair

module _ {K : Kernel} where
  -- `*tsk = *orig` and `clear_tsk_need_resched(tsk)`, with what copy_process resets before the child can
  -- run: `p->pi_top_task` in rt_mutex_init_task, the counts of switches at the start of copy_mm.
  unfoldable pub dup_task : State K → (p : ℕ) → State K
  unfolding put_task write
  dup_task s p = put_task s p (record (s.tasks s.rq.curr) {
    need_resched = false;
    pi_top_task = none;
    nvcsw = 0;
    nivcsw = 0;
  })

  -- `__sched_fork(clone_flags, p)`
  unfoldable pub sched_fork_setup : State K → (p : ℕ) → State K
  unfolding put_task write
  sched_fork_setup s p =
      with_ext
        (put_task s p (record (s.tasks p) {
          on_rq = 0;
          se = record ((s.tasks p).se) {
            on_rq = 0;
            exec_start = 0;
            sum_exec_runtime = 0;
            vruntime = 0;
            prev_sum_exec_runtime = 0;
            nr_migrations = 0;
          };
          rt = record {
            timeout = 0;
            time_slice = K.sched_rr_timeslice s.ext;
            on_rq = 0;
            on_list = 0;
          };
        }))
        (K.init_dl_task p s.ext)

  -- The state TASK_NEW, the priority of the parent without its boost, and the reset.
  unfoldable pub fork_params : State K → (p : ℕ) → State K
  unfolding put_task write reset_on_fork
  fork_params s p =
      let t = record (s.tasks p) { state = task_new; prio = (s.tasks s.rq.curr).normal_prio } in
      if t.sched_reset_on_fork
      then set_load_weight (put_task s p (reset_on_fork K t)) p false
      else put_task s p t

  -- The end of `sched_fork`: -EAGAIN, or the class and the entity of the child.
  unfoldable pub set_fork_class : State K → (p : ℕ) → Option SchedClass → Option Errno × State K
  unfolding put_task write
  set_fork_class s p none = (some eagain, s)
  set_fork_class s p (some c) = (
    none,
    with_ext (put_task s p (record (s.tasks p) { sched_class = c }))
        (K.init_entity_runnable_average p s.ext),
  )

  unfoldable pub sched_fork : State K → (p : ℕ) → Option Errno × State K
  unfolding sched_fork_setup fork_params fork_class set_fork_class
  sched_fork s p =
      let s' = fork_params (sched_fork_setup s p) p in
      set_fork_class s' p (fork_class K (s'.tasks p))

  -- `sched_cgroup_fork`: the hook `task_fork`, which the lottery class leaves out.
  unfoldable pub sched_cgroup_fork : State K → (p : ℕ) → State K
  sched_cgroup_fork s p =
      let c = (s.tasks p).sched_class in
      if is_lottery c then s else with_ext s (K.task_fork c s.tasks p s.ext)
