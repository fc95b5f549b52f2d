-- ===== src/Machine/Cpu.antt =====
-- The run queue of one CPU and all that its operations read and write.
use lottery_scheduler.Base.{ℕ, Bool, Option, List}
use lottery_scheduler.Task.{Task, Tasks, write}
use lottery_scheduler.Machine.Interface.{Kernel}

-- `struct ltr_rq`; the links of `queue` are in `State.links`.
pub record LtrRq : Type 0 where
  pub nr_running : ℕ
  pub total_tickets : ℕ

-- The fields of `struct rq` that the modelled code uses. `stop` is NULL before the stop task is set.
pub record Rq : Type 0 where
  pub ltr : LtrRq
  pub curr : ℕ
  pub idle : ℕ
  pub stop : Option ℕ
  pub clock : ℕ
  pub clock_task : ℕ
  pub clock_update_flags : ℕ
  pub nr_switches : ℕ
  pub nr_uninterruptible : ℕ
  pub nr_iowait : ℕ

-- The second argument of `log_event`.
pub data Op : Type 0 where
  enqueue dequeue select : Op

-- A line ">>pid,time,op" of the kernel log.
pub record Event : Type 0 where
  pub pid : ℕ
  pub time : ℕ
  pub op : Op

-- `log` has the latest line first. `preempt_need_resched` is the CPU's own flag.
pub record State (K : Kernel) : Type 0 where
  pub rq : Rq
  pub tasks : Tasks
  pub links : K.lists.Links
  pub log : List Event
  pub preempt_need_resched : Bool
  pub ext : K.Ext

module _ {K : Kernel} where
  -- `p->… = …`: the task at `p` becomes `t`.
  unfoldable pub put_task : State K → ℕ → Task → State K
  put_task s p t = record s { tasks = write s.tasks p t }

  -- The members of the lottery queue, from head to tail.
  abbrev pub members : State K → List ℕ
  members s = K.lists.entries s.links

  abbrev pub with_rq : State K → Rq → State K
  with_rq s rq = record s { rq = rq }

  abbrev pub with_ext : State K → K.Ext → State K
  with_ext s e = record s { ext = e }
