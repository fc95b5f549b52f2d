-- ===== src/Task/Entities.antt =====
-- The entities of the other classes in a task: `struct sched_entity`, `struct sched_rt_entity` and
-- `struct sched_dl_entity` of linux-5.15.180/include/linux/sched.h, with the fields that
-- kernel/sched/core.c reads or writes.
use lottery_scheduler.Base.{ℕ}

-- `struct load_weight`
pub record LoadWeight : Type 0 where
  pub weight : ℕ
  pub inv_weight : ℕ

pub record SchedEntity : Type 0 where
  pub load : LoadWeight
  pub on_rq : ℕ
  pub exec_start : ℕ
  pub sum_exec_runtime : ℕ
  pub vruntime : ℕ
  pub prev_sum_exec_runtime : ℕ
  pub nr_migrations : ℕ

pub record SchedRtEntity : Type 0 where
  pub timeout : ℕ
  pub time_slice : ℕ
  pub on_rq : ℕ
  pub on_list : ℕ

-- `pi_se` is given by the task that embeds the entity it points to.
pub record SchedDlEntity : Type 0 where
  pub deadline : ℕ
  pub flags : ℕ
  pub pi_se : ℕ
