-- ===== src/Uclamp/Clamped.antt =====
-- What the buckets of a run queue say about its tasks, and how one more or one less task changes it:
-- `uclamp_rq_inc_id` and `uclamp_rq_dec_id` of kernel/sched/core.c, seen from one clamp index.
use lottery_scheduler.Base.{
  ℕ, ◌<◌, ◌≤◌, ◌≡◌, ap, ◌∙◌, Bool, true, false, List, [], ◌∷◌, arith, ◌==◌, if◌then◌else◌, ltb,
  Bool-cases, inl, inr, has, sum_by, sum_by-ext, sum_by-ext_off, sum_by-remove, write_at,
}
use lottery_scheduler.Uclamp.Values.{UclampSe, UclampBucket, UclampRq, uclamp_bucket_id}
use lottery_scheduler.Uclamp.Rq.{inc_bucket}
use lottery_scheduler.Uclamp.Highest.{IsPlaced, IsHighest, bucket_id-lt}

abbrev pub is_empty : List ℕ → Bool
is_empty [] = true
is_empty (x ∷ xs) = false

abbrev pub in_bucket : (ℕ → UclampSe) → (b : ℕ) → ℕ → ℕ
in_bucket se b q = if (se q).bucket_id == b then 1 else 0

-- The runnable tasks `ps` are the active ones, each in the bucket of its value and not above what the
-- bucket tracks; a bucket counts its tasks and its value belongs in it; and the clamp of the run queue
-- is the greatest of the buckets with tasks.
pub record IsCounted (buckets : ℕ) (ps : List ℕ) (rq : UclampRq) (se : ℕ → UclampSe) : Type 0 where
  pub tasks : (b : ℕ) → (rq.bucket b).tasks ≡ sum_by (in_bucket se b) ps
  pub active : (q : ℕ) → (se q).active ≡ has q ps
  pub fits : (q : ℕ) → has q ps ≡ true → uclamp_bucket_id buckets (se q).value ≡ (se q).bucket_id
  pub below : (q : ℕ) → has q ps ≡ true → (se q).value ≤ (rq.bucket (se q).bucket_id).value
  pub placed : IsPlaced buckets buckets rq.bucket
  pub highest : (q : ℕ) → has q ps ≡ true → IsHighest buckets rq.bucket rq.value

-- Only the values of the arrays matter.
pub IsCounted-ext :
    {n : ℕ} {ps : List ℕ} {rq rq' : UclampRq} {se se' : ℕ → UclampSe}
    → rq'.value ≡ rq.value
    → ((b : ℕ) → rq'.bucket b ≡ rq.bucket b)
    → ((q : ℕ) → se' q ≡ se q)
    → IsCounted n ps rq se
    → IsCounted n ps rq' se'
IsCounted-ext {n} {ps} {rq} {rq'} {se} {se'} v bs ss c = record {
  tasks = λ b.
      ap (λ x. x.tasks) (bs b)
      ∙ c.tasks b
      ∙ sum_by-ext (in_bucket se b) (in_bucket se' b) ps (λ q. ground (arith, ss q));
  active = λ q. ap (λ x. x.active) (ss q) ∙ c.active q;
  fits = λ q h. rw (ss q) (c.fits q h);
  below = λ q h. rw (ss q, bs (se q).bucket_id) (c.below q h);
  placed = λ b lt used. rw (bs b) (c.placed b lt (ground (arith, used, bs b)));
  highest = λ q h.
      let t = c.highest q h in
      record {
        upper = λ b lt used. ground (arith, bs b, v, t.upper b lt (ground (arith, used, bs b)));
        at = t.at;
        at-lt = t.at-lt;
        at-Used = ground (arith, bs t.at, t.at-Used);
        attained = ground (arith, bs t.at, v, t.attained);
      };
}

-- The bucket of a runnable task counts it.
pub member-counted :
    (se : ℕ → UclampSe) (q : ℕ) (ps : List ℕ)
    → has q ps ≡ true
    → 1 ≤ sum_by (in_bucket se (se q).bucket_id) ps
member-counted se q ps h = ground (arith, sum_by-remove (in_bucket se (se q).bucket_id) q ps h)

abbrev pub with_task : (ℕ → UclampBucket) → UclampSe → ℕ → UclampBucket
with_task f x = write_at f x.bucket_id (inc_bucket (f x.bucket_id) x.value)

module _ (n : ℕ) (f : ℕ → UclampBucket) (x : UclampSe)
    (fit : uclamp_bucket_id n x.value ≡ x.bucket_id) (pos : 0 < n) where
  inc-lt : x.bucket_id < n
  inc-lt = omega (arith, fit, bucket_id-lt n x.value pos)

  first-IsHighest : ((b : ℕ) → (f b).tasks ≡ 0) → IsHighest n (with_task f x) x.value
  unfolding write_at inc_bucket
  first-IsHighest empty = record {
    upper = λ b lt used. ground (arith, empty b, used);
    at = x.bucket_id;
    at-lt = inc-lt;
    at-Used = ground arith;
    attained = ground (arith, empty x.bucket_id);
  }

  next-IsHighest :
      (v : ℕ) → IsHighest n f v → IsHighest n (with_task f x) (if ltb v x.value then x.value else v)
  unfolding write_at inc_bucket
  next-IsHighest v h = elim (Bool-cases (ltb v x.value)) [
    | inl more ↦ rw more (record {
      upper = λ b lt used. ground (arith, h.upper b lt, used, more);
      at = x.bucket_id;
      at-lt = inc-lt;
      at-Used = ground arith;
      attained = ground (arith, h.upper x.bucket_id inc-lt, more);
    })
    | inr less ↦ rw less (record {
      upper = λ b lt used. ground (arith, h.upper b lt, used, less);
      at = h.at;
      at-lt = h.at-lt;
      at-Used = ground (arith, h.at-Used);
      attained = ground (arith, h.attained, h.at-Used, less);
    })
  ]

-- The clamp of the run queue with one more task.
unfoldable pub raised : (idle : Bool) (clamp value : ℕ) → ℕ
raised idle v x = if idle then x else if ltb v x then x else v

inc-IsHighest :
    {n : ℕ} (ps : List ℕ) {rq : UclampRq} {se : ℕ → UclampSe} (x : UclampSe)
    → 0 < n
    → uclamp_bucket_id n x.value ≡ x.bucket_id
    → IsCounted n ps rq se
    → IsHighest n (with_task rq.bucket x) (raised (is_empty ps) rq.value x.value)
unfolding raised
inc-IsHighest {n} [] {rq} {se} x pos fit c = first-IsHighest n rq.bucket x fit pos c.tasks
inc-IsHighest {n} (q ∷ ps) {rq} {se} x pos fit c =
    next-IsHighest n rq.bucket x fit pos rq.value (c.highest q (ground arith))

-- One more task.
pub inc-IsCounted :
    {n : ℕ} {ps : List ℕ} {rq : UclampRq} {se : ℕ → UclampSe} (p : ℕ) (x : UclampSe)
    → 0 < n
    → has p ps ≡ false
    → x.active ≡ true
    → uclamp_bucket_id n x.value ≡ x.bucket_id
    → IsCounted n ps rq se
    → IsCounted n
        (p ∷ ps)
        (record { value = raised (is_empty ps) rq.value x.value; bucket = with_task rq.bucket x })
        (write_at se p x)
unfolding write_at inc_bucket
inc-IsCounted {n} {ps} {rq} {se} p x pos out on fit c = record {
  tasks = λ b. ground (
    arith,
    c.tasks b,
    sum_by-ext_off (in_bucket se b) (in_bucket (write_at se p x) b) p ps out
        (λ q other. ground arith),
  );
  active = λ q. ground (arith, c.active q, on);
  fits = λ q h. ground (arith, fit, c.fits q, h);
  below = λ q h. ground (arith, c.below q, h, member-counted se q ps, c.tasks (se q).bucket_id);
  placed = λ b lt used. ground (arith, c.placed b lt, used, fit);
  highest = λ q h. inc-IsHighest ps x pos fit c;
}
