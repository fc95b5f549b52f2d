-- ===== src/Uclamp/Kept.antt =====
-- `uclamp_rq_inc_id` and `uclamp_rq_dec_id` of kernel/sched/core.c keep the count of their clamp index.
use lottery_scheduler.Base.{
  not, if◌then◌else◌, Bool, true, false, ℕ, ◌<◌, ◌≡◌, refl, List, ◌∷◌, arith, ltb, Bool-cases, inl,
  inr, has, remove, distinct, write_at,
}
use lottery_scheduler.Uclamp.Values.{
  UclampId, uclamp_min, uclamp_max, write_id, uclamp_bucket_id, uclamp_none, Clamps, uclamp_eff_get,
}
use lottery_scheduler.Uclamp.Rq.{
  uclamp_rq_set, set_bucket, set_se, uclamp_idle_value, uclamp_idle_reset, value_or_idle,
  uclamp_rq_max_value, inc_bucket, raise_rq, uclamp_rq_inc_id, lower_rq, uclamp_rq_dec_id,
}
use lottery_scheduler.Uclamp.Clamped.{IsCounted, IsCounted-ext, is_empty, raised, inc-IsCounted}
use lottery_scheduler.Uclamp.Left.{or_else, lowered, dec-IsCounted}

-- Requests and defaults carry the bucket of their value, as `uclamp_se_set` leaves them.
pub record IsFiled (buckets : ℕ) (s : Clamps) : Type 0 where
  pub request :
      (p : ℕ) (id : UclampId)
      → uclamp_bucket_id buckets (s.request p id).value ≡ (s.request p id).bucket_id
  pub default :
      (id : UclampId) → uclamp_bucket_id buckets (s.default id).value ≡ (s.default id).bucket_id

pub eff_get-fits :
    {n : ℕ} {s : Clamps}
    → IsFiled n s
    → (p : ℕ) (id : UclampId)
    → uclamp_bucket_id n (uclamp_eff_get s p id).value ≡ (uclamp_eff_get s p id).bucket_id
unfolding uclamp_eff_get
eff_get-fits {n} {s} w p id = elim (Bool-cases (ltb (s.default id).value (s.request p id).value)) [
  | inl above ↦ rw above (w.default id)
  | inr within ↦ rw within (w.request p id)
]

abbrev pub Counted : ℕ → List ℕ → Clamps → UclampId → Type 0
Counted n ps s id = IsCounted n ps (s.rq id) (λ q. s.se q id)

pub inc_id-Counted :
    {n : ℕ} {ps : List ℕ} {s : Clamps} (p : ℕ) (id : UclampId)
    → 0 < n
    → IsFiled n s
    → s.idle ≡ is_empty ps
    → has p ps ≡ false
    → Counted n ps s id
    → Counted n (p ∷ ps) (uclamp_rq_inc_id s p id) id
unfolding uclamp_rq_inc_id set_se uclamp_idle_reset uclamp_rq_set set_bucket raise_rq write_id
    write_at inc_bucket raised
inc_id-Counted {n} {ps} {s} p uclamp_min pos w idle out c =
    IsCounted-ext (ground (arith, idle)) (λ b. ground arith) (λ q. ground arith)
      (inc-IsCounted p (record (uclamp_eff_get s p uclamp_min) { active = true }) pos out refl
        (eff_get-fits w p uclamp_min) c)
inc_id-Counted {n} {ps} {s} p uclamp_max pos w idle out c =
    IsCounted-ext (ground (arith, idle)) (λ b. ground arith) (λ q. ground arith)
      (inc-IsCounted p (record (uclamp_eff_get s p uclamp_max) { active = true }) pos out refl
        (eff_get-fits w p uclamp_max) c)

pub dec_id-Counted :
    {n : ℕ} {ps : List ℕ} (s : Clamps) (p : ℕ) (id : UclampId)
    → 0 < n
    → distinct ps ≡ true
    → has p ps ≡ true
    → Counted n ps s id
    → Counted n (remove p ps) (uclamp_rq_dec_id n s p id) id
unfolding uclamp_rq_dec_id set_se set_bucket lower_rq uclamp_rq_max_value value_or_idle
    uclamp_idle_value uclamp_rq_set write_id write_at lowered or_else
dec_id-Counted {n} {ps} s p uclamp_min pos once there c =
    let on = c.active p in
    IsCounted-ext (ground (arith, on, there)) (λ b. ground (arith, on, there))
      (λ q. ground (arith, on, there)) (dec-IsCounted p (uclamp_none uclamp_min) pos once there c)
dec_id-Counted {n} {ps} s p uclamp_max pos once there c =
    let on = c.active p in
    IsCounted-ext (ground (arith, on, there)) (λ b. ground (arith, on, there))
      (λ q. ground (arith, on, there)) (dec-IsCounted p (s.se p uclamp_max).value pos once there c)

pub both_ids :
    {n : ℕ} {ps : List ℕ} (s : Clamps)
    → Counted n ps s uclamp_min
    → Counted n ps s uclamp_max
    → (id : UclampId) → Counted n ps s id
both_ids s low high uclamp_min = low
both_ids s low high uclamp_max = high

-- Past the guards of an operation.
pub past_guards :
    (P : Clamps → Type 0) (a b : Bool) (s t : Clamps)
    → a ≡ true
    → b ≡ true
    → P t
    → P (if not a then s else if not b then s else t)
past_guards P true true s t ha hb h = h
past_guards P true false s t ha hb h = cc
past_guards P false b s t ha hb h = cc
