-- ===== src/Uclamp/Values.antt =====
-- Clamp values and their buckets: `struct uclamp_se` of include/linux/sched.h, `struct uclamp_bucket` and
-- `struct uclamp_rq` of kernel/sched/sched.h, and `uclamp_bucket_id` to `uclamp_eff_get` of
-- kernel/sched/core.c.
use lottery_scheduler.Base.{ℕ, ◌+◌, ◌-◌, ◌/◌, Bool, if◌then◌else◌, ltb}

-- `enum uclamp_id`
pub data UclampId : Type 0 where
  uclamp_min uclamp_max : UclampId

-- `f[id] = x`
unfoldable pub write_id {ℓ} : {A : Type ℓ} → (UclampId → A) → UclampId → A → UclampId → A
write_id f uclamp_min x uclamp_min = x
write_id f uclamp_min x uclamp_max = f uclamp_max
write_id f uclamp_max x uclamp_min = f uclamp_min
write_id f uclamp_max x uclamp_max = x

abbrev pub sched_capacity_scale : ℕ
sched_capacity_scale = 1024

pub record UclampSe : Type 0 where
  pub value : ℕ
  pub bucket_id : ℕ
  pub active : Bool
  pub user_defined : Bool

-- `tasks` is a bit-field of BITS_PER_LONG - 11 bits, more than there can be tasks.
pub record UclampBucket : Type 0 where
  pub tasks : ℕ
  pub value : ℕ

pub record UclampRq : Type 0 where
  pub value : ℕ
  pub bucket : ℕ → UclampBucket

-- `DIV_ROUND_CLOSEST(SCHED_CAPACITY_SCALE, UCLAMP_BUCKETS)`
unfoldable pub uclamp_bucket_delta : (buckets : ℕ) → ℕ
uclamp_bucket_delta buckets = (sched_capacity_scale + buckets / 2) / buckets

unfoldable pub uclamp_bucket_id : (buckets value : ℕ) → ℕ
unfolding uclamp_bucket_delta
uclamp_bucket_id buckets v =
    let id = v / uclamp_bucket_delta buckets in if ltb id (buckets - 1) then id else buckets - 1

unfoldable pub uclamp_none : UclampId → ℕ
uclamp_none uclamp_min = 0
uclamp_none uclamp_max = sched_capacity_scale

unfoldable pub uclamp_se_set :
    (buckets : ℕ) → UclampSe → (value : ℕ) (user_defined : Bool) → UclampSe
unfolding uclamp_bucket_id
uclamp_se_set buckets se v user = record se {
  value = v;
  bucket_id = uclamp_bucket_id buckets v;
  user_defined = user;
}

-- The clamps of the run queue, and the requested and the effective clamps of the tasks. `warned` is
-- whether a SCHED_WARN_ON has fired, `used` the static key `sched_uclamp_used`, and `enabled` whether
-- the class of a task has `uclamp_enabled`.
pub record Clamps : Type 0 where
  pub rq : UclampId → UclampRq
  pub idle : Bool
  pub se : (task : ℕ) → UclampId → UclampSe
  pub request : (task : ℕ) → UclampId → UclampSe
  pub default : UclampId → UclampSe
  pub warned : Bool
  pub used : Bool
  pub enabled : (task : ℕ) → Bool

-- The request, within the system default.
unfoldable pub uclamp_eff_get : Clamps → (p : ℕ) → UclampId → UclampSe
uclamp_eff_get s p id =
    if ltb (s.default id).value (s.request p id).value then s.default id else s.request p id

unfoldable pub uclamp_eff_value : Clamps → (p : ℕ) → UclampId → ℕ
unfolding uclamp_eff_get
uclamp_eff_value s p id =
    if (s.se p id).active then (s.se p id).value else (uclamp_eff_get s p id).value
