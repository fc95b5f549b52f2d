-- ===== src/Group/Limits.antt =====
-- The limits of a task group by themselves: `struct cfs_bandwidth` of kernel/sched/sched.h, and of
-- kernel/sched/core.c `to_ratio`, the getters, and the parts of `tg_set_cfs_bandwidth` and
-- `__cfs_schedulable` that are about numbers. The `s64` values are words.
use lottery_scheduler.Base.{
  ℕ, ◌+◌, ◌-◌, ◌*◌, ◌/◌, ◌%◌, ◌^◌, Bool, ◌&&◌, ◌||◌, not, Option, none, some, ◌==◌, ltb,
  if◌then◌else◌, add64, u64_mod,
}
use lottery_scheduler.Machine.{Errno, einval}

pub record CfsBandwidth : Type 0 where
  pub period : ℕ
  pub quota : ℕ
  pub burst : ℕ
  pub hierarchical_quota : ℕ

-- `~0ULL`, which is -1 as an `s64`
abbrev pub runtime_inf : ℕ
runtime_inf = 2 ^ 64 - 1

abbrev pub bw_shift : ℕ
bw_shift = 20

abbrev pub bw_unit : ℕ
bw_unit = 2 ^ bw_shift

abbrev pub max_bw : ℕ
max_bw = 2 ^ (64 - bw_shift) - 1

abbrev pub nsec_per_usec : ℕ
nsec_per_usec = 1000

abbrev pub max_cfs_quota_period : ℕ
max_cfs_quota_period = 1000000000

abbrev pub min_cfs_quota_period : ℕ
min_cfs_quota_period = 1000000

abbrev pub max_cfs_runtime : ℕ
max_cfs_runtime = max_bw * nsec_per_usec

unfoldable pub to_ratio : (period runtime : ℕ) → ℕ
to_ratio period runtime =
    if runtime == runtime_inf
    then bw_unit
    else if period == 0
    then 0
    else (runtime * 2 ^ bw_shift % u64_mod) / period

-- `a < b` and `min` of `s64` words
abbrev pub s64_ltb : ℕ → ℕ → Bool
s64_ltb a b = ltb ((a + 2 ^ 63) % u64_mod) ((b + 2 ^ 63) % u64_mod)

abbrev pub s64_min : ℕ → ℕ → ℕ
s64_min a b = if s64_ltb a b then a else b

unfoldable pub tg_get_cfs_quota : CfsBandwidth → ℕ
tg_get_cfs_quota b = if b.quota == runtime_inf then runtime_inf else b.quota / nsec_per_usec

unfoldable pub tg_get_cfs_period : CfsBandwidth → ℕ
tg_get_cfs_period b = b.period / nsec_per_usec

unfoldable pub tg_get_cfs_burst : CfsBandwidth → ℕ
tg_get_cfs_burst b = b.burst / nsec_per_usec

-- `struct cfs_schedulable_data`
pub record CfsSchedulableData : Type 0 where
  pub tg : ℕ
  pub period : ℕ
  pub quota : ℕ

-- The end of `normalize_cfs_quota`.
unfoldable pub ratio : (period quota : ℕ) → ℕ
unfolding to_ratio
ratio period quota =
    if quota == runtime_inf || quota == u64_mod - 1 then runtime_inf else to_ratio period quota

unfoldable pub normalize_cfs_quota : (tg : ℕ) → CfsBandwidth → CfsSchedulableData → ℕ
unfolding ratio tg_get_cfs_period tg_get_cfs_quota
normalize_cfs_quota tg b d =
    if tg == d.tg then ratio d.period d.quota else ratio (tg_get_cfs_period b) (tg_get_cfs_quota b)

-- The quota of a group under its parent's, or none if it is more.
unfoldable pub quota_under : (on_dfl : Bool) (quota parent_quota : ℕ) → Option ℕ
quota_under on_dfl quota parent_quota =
    if on_dfl
    then some (s64_min quota parent_quota)
    else if quota == runtime_inf
    then some parent_quota
    else if not (parent_quota == runtime_inf) && s64_ltb parent_quota quota
    then none
    else some quota

-- What `__cfs_schedulable` passes on.
unfoldable pub schedulable_data : (tg period quota : ℕ) → CfsSchedulableData
schedulable_data g p q =
    if q == runtime_inf
    then record { tg = g; period = p; quota = q }
    else record { tg = g; period = p / nsec_per_usec; quota = q / nsec_per_usec }

-- The refusals before the locks.
unfoldable pub check_bandwidth : (root tg period quota burst : ℕ) → Option Errno
unfolding add64
check_bandwidth root tg period quota burst =
    if tg == root
    then some einval
    else if ltb quota min_cfs_quota_period || ltb period min_cfs_quota_period
    then some einval
    else if ltb max_cfs_quota_period period
    then some einval
    else if not (quota == runtime_inf) && ltb max_cfs_runtime quota
    then some einval
    else if not (quota == runtime_inf)
        && (ltb quota burst || ltb max_cfs_runtime (add64 burst quota))
    then some einval
    else none
