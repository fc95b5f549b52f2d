-- ===== src/Clone/World.antt =====
-- What kernel/fork.c works on: the scheduler, the counted objects that tasks share, and the services
-- of the rest of the kernel, which hold something for a task until they are told to let go.
use lottery_scheduler.Base.{ℕ, ◌+◌, ◌-◌, ◌≡◌, ◌≢◌, Bool, Option, none, some, ◌==◌, if◌then◌else◌, ℤ}
unfoldable pub use lottery_scheduler.Base.{write_at}
use lottery_scheduler.Machine.{Kernel, State, Errno}
use lottery_scheduler.Core.Setscheduler.Request.{Outcome, pass}
use lottery_scheduler.Clone.Flags.{Origin}

-- The members of `struct task_struct` that point to an object with a count of its users.
pub data Resource : Type 0 where
  mm files fs sighand io_context : Resource

unfoldable pub resource_index : Resource → ℕ
resource_index mm = 0
resource_index files = 1
resource_index fs = 2
resource_index sighand = 3
resource_index io_context = 4

abbrev pub same_resource : Resource → Resource → Bool
same_resource a b = resource_index a == resource_index b

-- What else a task holds while it is made, each with an operation that takes it and one that gives it
-- back: `creds` is `copy_creds`, and `dec_rlimit_ucounts` with `exit_creds`.
pub data Service : Type 0 where
  task_struct creds delayacct mempolicy perf_event audit security semundo : Service
  signal namespaces thread pid fd pidfile cgroup : Service

unfoldable pub service_index : Service → ℕ
service_index task_struct = 0
service_index creds = 1
service_index delayacct = 2
service_index mempolicy = 3
service_index perf_event = 4
service_index audit = 5
service_index security = 6
service_index semundo = 7
service_index signal = 8
service_index namespaces = 9
service_index thread = 10
service_index pid = 11
service_index fd = 12
service_index pidfile = 13
service_index cgroup = 14

abbrev pub same_service : Service → Service → Bool
same_service a b = service_index a == service_index b

abbrev pub Users : Type 0
Users = ℕ → ℕ

-- The rest of the kernel. Address 0 is NULL.
pub record Services : Type 1 where
  pub World : Type 0
  pub origin : World → Origin
  pub task_sigpending : World → Bool
  pub fatal_signal_pending : World → Bool
  -- the limit on processes is passed, and neither the user nor a capability excuses it
  pub over_nproc : World → Bool
  pub max_threads : World → ℕ
  pub in_exec : (object : ℕ) → World → Bool
  pub ioprio_valid : (object : ℕ) → World → Bool
  -- whether the pid namespace of the child still takes processes (PIDNS_ADDING)
  pub pidns_adding : (p : ℕ) → World → Bool
  pub pid_nr : (p : ℕ) → World → ℕ
  pub pid_vnr : (p : ℕ) → World → ℕ
  -- the descriptor that is reserved for the pidfd of the child
  pub fd_nr : (p : ℕ) → World → ℕ
  pub put_user : (value address : ℕ) → World → Bool × World
  pub init_delayacct : (p : ℕ) → World → World
  pub acquire : Service → (flags p : ℕ) → World → Option Errno × World
  pub release : Service → (p : ℕ) → World → World
  -- `dup_mm`, `dup_fd`, `copy_fs_struct`, the slab of `sighand_cachep`, `get_task_io_context`
  pub duplicate : Resource → (p : ℕ) → Users → World → Outcome ℕ × World
  -- `exit_files`, `exit_fs` and `exit_io_context` on the object, and `ioc_task_link`
  pub put_object : Resource → (object : ℕ) → Users → Users
  pub link_object : (object : ℕ) → Users → Users

abbrev pub indicator : Bool → ℕ
indicator b = if b then 1 else 0

-- What fork.c relies on: `held` counts what a service holds, taking adds one unless it fails, giving
-- back takes one away, and a duplicate lies at an address that nothing uses.
pub record IsBalanced (V : Services) : Type 0 where
  pub held : Service → V.World → ℕ
  pub acquired :
      (x v : Service) (flags p : ℕ) (w : V.World)
      → (V.acquire x flags p w).0 ≡ none
      → held v (V.acquire x flags p w).1 ≡ held v w + indicator (same_service x v)
  pub not_acquired :
      (x v : Service) (flags p : ℕ) (w : V.World) (e : Errno)
      → (V.acquire x flags p w).0 ≡ some e
      → held v (V.acquire x flags p w).1 ≡ held v w
  pub released :
      (x v : Service) (p : ℕ) (w : V.World)
      → held v (V.release x p w) ≡ held v w - indicator (same_service x v)
  pub init_delayacct-held :
      (v : Service) (p : ℕ) (w : V.World)
      → held v (V.init_delayacct p w) ≡ held v w + indicator (same_service delayacct v)
  pub put_user-held :
      (v : Service) (value address : ℕ) (w : V.World)
      → held v (V.put_user value address w).1 ≡ held v w
  pub duplicate-held :
      (v : Service) (r : Resource) (p : ℕ) (u : Users) (w : V.World)
      → held v (V.duplicate r p u w).1 ≡ held v w
  pub duplicate-fresh :
      (r : Resource) (p : ℕ) (u : Users) (w : V.World) (a : ℕ)
      → (V.duplicate r p u w).0 ≡ pass a
      → (a ≢ 0) × (u a ≡ 0)
  pub put :
      (r : Resource) (a : ℕ) (u : Users) (b : ℕ) → V.put_object r a u b ≡ (u b - indicator (a == b))
  pub linked : (a : ℕ) (u : Users) (b : ℕ) → V.link_object a u b ≡ u b + indicator (a == b)

-- The members of `struct task_struct` that say whose child a task is. Pids and tasks are numbers.
pub record Identity : Type 0 where
  pub pid : ℕ
  pub tgid : ℕ
  pub group_leader : ℕ
  pub real_parent : ℕ
  pub exit_signal : ℤ
  pub set_child_tid : ℕ
  pub clear_child_tid : ℕ
  pub vfork_done : Bool

-- `struct kernel_clone_args`
pub record CloneArgs : Type 0 where
  pub flags : ℕ
  pub pidfd : ℕ
  pub child_tid : ℕ
  pub parent_tid : ℕ
  pub exit_signal : ℤ

-- `users` has the count of the object at an address, `delayed` is whether `delayed.node` is on the
-- list of `current->signal`.
pub record ForkState (K : Kernel) (V : Services) : Type 0 where
  pub sched : State K
  pub world : V.World
  pub users : Users
  pub resources : (task : ℕ) → Resource → ℕ
  pub identity : (task : ℕ) → Identity
  pub delayed : Bool
  pub nr_threads : ℕ
  pub total_forks : ℕ

-- A step ends with an error code or none.
abbrev pub Step : Kernel → Services → Type 0
Step K V = ForkState K V → Option Errno × ForkState K V

unfoldable pub write_member : (Resource → ℕ) → Resource → ℕ → Resource → ℕ
write_member f r a q = if same_resource q r then a else f q

module _ {K : Kernel} {V : Services} where
  -- `current`
  abbrev pub current : ForkState K V → ℕ
  current s = s.sched.rq.curr

  abbrev pub with_users : ForkState K V → Users → ForkState K V
  with_users s u = record s { users = u }

  abbrev pub with_world : ForkState K V → V.World → ForkState K V
  with_world s w = record s { world = w }

  -- `p->r = object`
  unfoldable pub point : ForkState K V → (p : ℕ) → Resource → (object : ℕ) → ForkState K V
  unfolding write_at write_member
  point s p r a = record s { resources = write_at s.resources p (write_member (s.resources p) r a) }

  -- The count of the object goes up by one.
  unfoldable pub bump : ForkState K V → (object : ℕ) → ForkState K V
  unfolding write_at
  bump s a = with_users s (write_at s.users a (s.users a + 1))

unfoldable pub and_then :
    {K : Kernel} {V : Services}
    → Step K V
    → Option Errno × ForkState K V
    → Option Errno × ForkState K V
and_then rest (none, s) = rest s
and_then rest (some e, s) = (some e, s)

infixr 4 ◌▹◌
-- The next step, unless this one fails.
unfoldable pub ◌▹◌ : {K : Kernel} {V : Services} → Step K V → Step K V → Step K V
unfolding and_then
(m ▹ rest) s = and_then rest (m s)

-- `if (retval) goto label;`, where the label undoes and returns the error.
unfoldable pub at_label :
    {K : Kernel} {V : Services}
    → (ForkState K V → ForkState K V)
    → Option Errno × ForkState K V
    → Option Errno × ForkState K V
at_label label (none, s) = (none, s)
at_label label (some e, s) = (some e, label s)

unfoldable pub or_goto :
    {K : Kernel} {V : Services} → (ForkState K V → ForkState K V) → Step K V → Step K V
unfolding at_label
or_goto label m s = at_label label (m s)
