-- ===== src/Task/Class.antt =====
-- Scheduling classes and policies.
use lottery_scheduler.Base.{
  ℕ, suc, ◌≡◌, Bool, true, ◌||◌, List, [], ◌∷◌, arith, ◌==◌, if◌then◌else◌,
}

-- The objects that `DEFINE_SCHED_CLASS` declares.
pub data SchedClass : Type 0 where
  idle fair rt dl stop lottery : SchedClass

pub SchedClass-discrete : Discrete SchedClass
SchedClass-discrete = hlevel

-- `SCHED_DATA` lays the classes out in this order, from `__begin_sched_classes` upwards.
unfoldable pub sched_data : List SchedClass
sched_data = idle ∷ fair ∷ rt ∷ dl ∷ stop ∷ lottery ∷ []

abbrev class_id : SchedClass → ℕ
class_id idle = 0
class_id fair = 1
class_id rt = 2
class_id dl = 3
class_id stop = 4
class_id lottery = 5

abbrev pub class_eq : SchedClass → SchedClass → Bool
class_eq a b = class_id a == class_id b

-- The index of a class in a list of classes, the length of the list if it is not there.
abbrev pub position : SchedClass → List SchedClass → ℕ
position c [] = 0
position c (x ∷ xs) = if class_eq c x then 0 else suc (position c xs)

-- The address of a class, counted in objects from `__begin_sched_classes`.
unfoldable pub address : SchedClass → ℕ
unfolding sched_data
address c = position c sched_data

pub class_eq→eq : (a b : SchedClass) → class_eq a b ≡ true → a ≡ b
class_eq→eq a b h = ground arith

abbrev pub sched_normal : ℕ
sched_normal = 0

abbrev pub sched_fifo : ℕ
sched_fifo = 1

abbrev pub sched_rr : ℕ
sched_rr = 2

abbrev pub sched_batch : ℕ
sched_batch = 3

abbrev pub sched_idle : ℕ
sched_idle = 5

abbrev pub sched_deadline : ℕ
sched_deadline = 6

abbrev pub sched_lottery : ℕ
sched_lottery = 7

abbrev pub idle_policy : ℕ → Bool
idle_policy policy = policy == sched_idle

abbrev pub fair_policy : ℕ → Bool
fair_policy policy = policy == sched_normal || policy == sched_batch

abbrev pub rt_policy : ℕ → Bool
rt_policy policy = policy == sched_fifo || policy == sched_rr

abbrev pub dl_policy : ℕ → Bool
dl_policy policy = policy == sched_deadline

abbrev pub ltr_policy : ℕ → Bool
ltr_policy policy = policy == sched_lottery

unfoldable pub valid_policy : ℕ → Bool
valid_policy policy =
    idle_policy policy
    || fair_policy policy
    || rt_policy policy
    || dl_policy policy
    || ltr_policy policy
