-- ===== src/Syscall/User.antt =====
-- What the system calls of kernel/sched/core.c need outside the repository, and their state.
use lottery_scheduler.Base.{
  ℕ, ◌≡◌, Bool, Option, none, some, ◌==◌, if◌then◌else◌, ℤ, pos, ltb_ℤ, pos_part,
}
use lottery_scheduler.Task.{Task}
use lottery_scheduler.Machine.{Kernel, Errno, esrch, Attr, State}
use lottery_scheduler.Core.Setscheduler.Request.{Outcome, refuse, pass}

-- `World` holds user memory, the table of process numbers and the state of the security module. An
-- address of user memory is a number, 0 for NULL.
pub record UserSpace : Type 1 where
  pub World : Type 0
  -- kernel/pid.c
  pub find_task_by_vpid : (pid : ℕ) → World → Option ℕ
  -- security/security.c; none is the answer 0
  pub security_task_getscheduler : (p : ℕ) → World → Option Errno
  pub security_task_setnice : (p : ℕ) → (nice : ℤ) → World → Option Errno
  -- kernel/sched/deadline.c: `__getparam_dl(p, attr)`, which leaves the policy alone
  pub getparam_dl : Task → Attr → Attr
  pub getparam_dl-policy : (t : Task) (attr : Attr) → (getparam_dl t attr).policy ≡ attr.policy
  -- PAGE_SIZE; SCHED_ATTR_SIZE_VER0, SCHED_ATTR_SIZE_VER1 and `sizeof(struct sched_attr)` of
  -- include/uapi/linux/sched/types.h
  pub page_size : ℕ
  pub size_ver0 : ℕ
  pub size_ver1 : ℕ
  pub attr_size : ℕ
  -- `copy_from_user` and `copy_to_user` of a `struct sched_param`, with its one field; none if they
  -- fail.
  pub read_param : (param : ℕ) → World → Option ℕ
  pub write_param : (param priority : ℕ) → World → Option World
  -- `get_user` and `put_user` at `uattr->size`
  pub read_size : (uattr : ℕ) → World → Option ℕ
  pub write_size : (uattr size : ℕ) → World → World
  -- `copy_struct_from_user` of `size` bytes at `uattr`, the rest being 0
  pub copy_struct_from_user : (uattr size : ℕ) → World → Outcome Attr
  pub access_ok : (uattr size : ℕ) → World → Bool
  -- `copy_to_user` of the first `size` bytes of a `struct sched_attr` whose field `size` is that too
  pub write_attr : (uattr size : ℕ) → Attr → World → Option World

pub record System (K : Kernel) (U : UserSpace) : Type 0 where
  pub sched : State K
  pub world : U.World

abbrev pub negative : ℤ → Bool
negative a = ltb_ℤ a (pos 0)

module _ {K : Kernel} {U : UserSpace} where
  -- For a number that is not negative; 0 is the caller.
  unfoldable pub find_process_by_pid : System K U → (pid : ℤ) → Option ℕ
  find_process_by_pid s pid =
      if pos_part pid == 0 then some s.sched.rq.curr else U.find_task_by_vpid (pos_part pid) s.world

  -- -ESRCH without a process; else what the call on the process answers.
  unfoldable pub on_process :
      System K U → Option ℕ → (ℕ → Option Errno × State K) → Option Errno × System K U
  on_process s none call = (some esrch, s)
  on_process s (some p) call = let (e, t) = call p in (e, record s { sched = t })

  -- The task that a query may read: -ESRCH, or what the security module answers.
  unfoldable pub readable : System K U → Option ℕ → Outcome ℕ
  readable s none = refuse esrch
  readable s (some p) = elim (U.security_task_getscheduler p s.world) [
    | none ↦ pass p
    | some e ↦ refuse e
  ]
