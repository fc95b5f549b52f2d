-- ===== src/Uclamp/Rq.antt =====
-- The buckets of a run queue: `uclamp_rq_max_value` to `uclamp_rq_reinc_id` and `init_uclamp_rq` of
-- kernel/sched/core.c.
use lottery_scheduler.Base.{
  ℕ, zero, suc, ◌+◌, ◌-◌, true, false, Option, none, some, not, ◌||◌, ◌==◌, ltb, leb, if◌then◌else◌,
  write_at,
}
use lottery_scheduler.Uclamp.Values.{
  UclampId, uclamp_min, uclamp_max, write_id, UclampSe, UclampBucket, uclamp_none, Clamps,
  uclamp_eff_get,
}

unfoldable pub uclamp_rq_set : Clamps → UclampId → (value : ℕ) → Clamps
unfolding write_id
uclamp_rq_set s id v = record s { rq = write_id s.rq id (record (s.rq id) { value = v }) }

unfoldable pub set_bucket : Clamps → UclampId → (b : ℕ) → UclampBucket → Clamps
unfolding write_id write_at
set_bucket s id b x = record s {
  rq = write_id s.rq id (record (s.rq id) { bucket = write_at (s.rq id).bucket b x });
}

unfoldable pub set_se : Clamps → (p : ℕ) → UclampId → UclampSe → Clamps
unfolding write_id write_at
set_se s p id x = record s { se = write_at s.se p (write_id (s.se p) id x) }

-- Without tasks the max clamp is retained, and the min clamp is dropped.
unfoldable pub uclamp_idle_value : Clamps → UclampId → (clamp_value : ℕ) → ℕ × Clamps
unfolding uclamp_none
uclamp_idle_value s uclamp_max v = (v, record s { idle = true })
uclamp_idle_value s uclamp_min v = (uclamp_none uclamp_min, s)

unfoldable pub uclamp_idle_reset : Clamps → UclampId → (clamp_value : ℕ) → Clamps
unfolding uclamp_rq_set
uclamp_idle_reset s id v = if s.idle then uclamp_rq_set s id v else s

-- The value of the top most bucket below `n` with tasks in it: the loop of `uclamp_rq_max_value`.
unfoldable pub top_bucket : (n : ℕ) → (ℕ → UclampBucket) → Option ℕ
top_bucket zero f = none
top_bucket (suc n) f =
    let rest = top_bucket n f in if (f n).tasks == 0 then rest else some (f n).value

unfoldable pub value_or_idle : Clamps → UclampId → (clamp_value : ℕ) → Option ℕ → ℕ × Clamps
unfolding uclamp_idle_value
value_or_idle s id v (some x) = (x, s)
value_or_idle s id v none = uclamp_idle_value s id v

unfoldable pub uclamp_rq_max_value :
    (buckets : ℕ) → Clamps → UclampId → (clamp_value : ℕ) → ℕ × Clamps
unfolding top_bucket value_or_idle
uclamp_rq_max_value buckets s id v = value_or_idle s id v (top_bucket buckets (s.rq id).bucket)

-- The bucket of the task counts it, and tracks the greatest value in it.
unfoldable pub inc_bucket : UclampBucket → (value : ℕ) → UclampBucket
inc_bucket b v = record b {
  tasks = b.tasks + 1;
  value = if b.tasks + 1 == 1 || ltb b.value v then v else b.value;
}

unfoldable pub raise_rq : Clamps → UclampId → (value : ℕ) → Clamps
unfolding uclamp_rq_set
raise_rq s id v = if ltb (s.rq id).value v then uclamp_rq_set s id v else s

unfoldable pub uclamp_rq_inc_id : Clamps → (p : ℕ) → UclampId → Clamps
unfolding uclamp_eff_get set_se uclamp_idle_reset set_bucket inc_bucket raise_rq
uclamp_rq_inc_id s p id =
    let se = record (uclamp_eff_get s p id) { active = true } in
    let s' = uclamp_idle_reset (set_se s p id se) id se.value in
    raise_rq (set_bucket s' id se.bucket_id (inc_bucket ((s'.rq id).bucket se.bucket_id) se.value))
      id se.value

-- The last task has left the bucket.
unfoldable pub lower_rq :
    (buckets : ℕ) → Clamps → UclampId → (bucket_value clamp_value : ℕ) → Clamps
unfolding uclamp_rq_set uclamp_rq_max_value
lower_rq buckets s id bucket_value v =
    let rq_clamp = (s.rq id).value in
    let s' = record s { warned = s.warned || ltb rq_clamp bucket_value } in
    if leb rq_clamp bucket_value
    then (let r = uclamp_rq_max_value buckets s' id v in uclamp_rq_set r.1 id r.0)
    else s'

unfoldable pub uclamp_rq_dec_id : (buckets : ℕ) → Clamps → (p : ℕ) → UclampId → Clamps
unfolding set_se set_bucket lower_rq
uclamp_rq_dec_id buckets s p id =
    let se = s.se p id in
    let b = (s.rq id).bucket se.bucket_id in
    let s' =
      set_se
        (record (set_bucket s id se.bucket_id (record b { tasks = b.tasks - 1 })) {
          warned = s.warned || b.tasks == 0;
        })
        p id (record se { active = false }) in
    if not se.active
    then s
    else if not (b.tasks - 1 == 0)
    then s'
    else lower_rq buckets s' id b.value se.value

unfoldable pub uclamp_rq_inc : Clamps → (p : ℕ) → Clamps
unfolding uclamp_rq_inc_id
uclamp_rq_inc s p =
    if not s.used
    then s
    else if not (s.enabled p)
    then s
    else record (uclamp_rq_inc_id (uclamp_rq_inc_id s p uclamp_min) p uclamp_max) { idle = false }

unfoldable pub uclamp_rq_dec : (buckets : ℕ) → Clamps → (p : ℕ) → Clamps
unfolding uclamp_rq_dec_id
uclamp_rq_dec buckets s p =
    if not s.used
    then s
    else if not (s.enabled p)
    then s
    else uclamp_rq_dec_id buckets (uclamp_rq_dec_id buckets s p uclamp_min) p uclamp_max

unfoldable pub uclamp_rq_reinc_id : (buckets : ℕ) → Clamps → (p : ℕ) → UclampId → Clamps
unfolding uclamp_rq_inc_id uclamp_rq_dec_id
uclamp_rq_reinc_id buckets s p uclamp_min =
    if (s.se p uclamp_min).active
    then uclamp_rq_inc_id (uclamp_rq_dec_id buckets s p uclamp_min) p uclamp_min
    else s
uclamp_rq_reinc_id buckets s p uclamp_max =
    if (s.se p uclamp_max).active
    then record (uclamp_rq_inc_id (uclamp_rq_dec_id buckets s p uclamp_max) p uclamp_max) {
      idle = false;
    }
    else s

-- `init_uclamp_rq`
unfoldable pub init_uclamp_rq : Clamps → Clamps
unfolding uclamp_none
init_uclamp_rq s = record s {
  rq = λ id. record { value = uclamp_none id; bucket = λ b. record { tasks = 0; value = 0 } };
  idle = true;
}
