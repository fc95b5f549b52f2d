-- ===== src/Task/Memory.antt =====
-- `struct task_struct` with `struct sched_ltr_entity`, and the memory of tasks.
use lottery_scheduler.Base.{ℕ, ◌≡◌, ◌≢◌, Bool, arith, ◌==◌, ℤ, Option, if◌then◌else◌}
use lottery_scheduler.Task.Class.{SchedClass}
use lottery_scheduler.Task.Entities.{SchedEntity, SchedRtEntity, SchedDlEntity}

-- `tickets` is `ltr.tickets`; the links `ltr.list` are kept with the queue they link into.
-- `need_resched` is the thread flag TIF_NEED_RESCHED.
pub record Task : Type 0 where
  pub pid : ℕ
  pub state : ℕ  -- __state
  pub on_rq : ℕ
  pub flags : ℕ
  pub sched_class : SchedClass
  pub policy : ℕ
  pub prio : ℤ
  pub static_prio : ℤ
  pub normal_prio : ℤ
  pub rt_priority : ℕ
  pub tickets : ℕ
  pub sched_reset_on_fork : Bool
  pub sched_contributes_to_load : Bool
  pub in_iowait : Bool
  pub nvcsw : ℕ
  pub nivcsw : ℕ
  pub need_resched : Bool
  pub se : SchedEntity
  pub rt : SchedRtEntity
  pub dl : SchedDlEntity
  pub pi_top_task : Option ℕ

abbrev pub Tasks : Type 0
Tasks = ℕ → Task

-- A write to the task at `p`.
unfoldable pub write : Tasks → ℕ → Task → Tasks
write m p t q = if q == p then t else m q

-- A write that leaves a field alone leaves it alone at every task.
pub write-field {ℓ} :
    {A : Type ℓ} (f : Task → A) (m : Tasks) (p : ℕ) (t : Task)
    → f t ≡ f (m p)
    → (q : ℕ) → f (write m p t q) ≡ f (m q)
unfolding write
write-field f m p t h q = ground (arith, h)

pub write_self : (m : Tasks) (p : ℕ) (t : Task) → write m p t p ≡ t
unfolding write
write_self m p t = ground arith

pub write_other : (m : Tasks) (p : ℕ) (t : Task) (q : ℕ) → q ≢ p → write m p t q ≡ m q
unfolding write
write_other m p t q h = ground arith
