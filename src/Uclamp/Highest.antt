-- ===== src/Uclamp/Highest.antt =====
-- The clamp of a run queue as the greatest value of its buckets, and that `uclamp_rq_max_value` of
-- kernel/sched/core.c finds it by the order of the buckets alone.
use lottery_scheduler.Base.{
  ℕ, zero, suc, ◌/◌, ◌<◌, ◌≤◌, ◌≡◌, refl, false, none, some, arith, ◌==◌, Bool-cases, inl, inr,
}
use lottery_scheduler.Uclamp.Values.{UclampBucket, uclamp_bucket_id, uclamp_bucket_delta}
use lottery_scheduler.Uclamp.Rq.{top_bucket}

div_mono : (a b d : ℕ) → a ≤ b → a / d ≤ b / d
div_mono a b d h = grind arith

pub bucket_id_mono : (n a b : ℕ) → a ≤ b → uclamp_bucket_id n a ≤ uclamp_bucket_id n b
unfolding uclamp_bucket_id
bucket_id_mono n a b h = ground (arith, div_mono a b (uclamp_bucket_delta n) h)

pub bucket_id-lt : (n a : ℕ) → 0 < n → uclamp_bucket_id n a < n
unfolding uclamp_bucket_id
bucket_id-lt n a h = ground arith

abbrev pub Used : UclampBucket → Type 0
Used b = (b.tasks == 0) ≡ false

-- A bucket with tasks holds a value that belongs in it.
abbrev pub IsPlaced : (buckets n : ℕ) → (ℕ → UclampBucket) → Type 0
IsPlaced buckets n f = (b : ℕ) → b < n → Used (f b) → uclamp_bucket_id buckets (f b).value ≡ b

-- The greatest value of the buckets below `n` that have tasks.
pub record IsHighest (n : ℕ) (f : ℕ → UclampBucket) (v : ℕ) : Type 0 where
  pub upper : (b : ℕ) → b < n → Used (f b) → (f b).value ≤ v
  pub at : ℕ
  pub at-lt : at < n
  pub at-Used : Used (f at)
  pub attained : (f at).value ≡ v

below_top :
    (buckets a b : ℕ) (x y : ℕ)
    → uclamp_bucket_id buckets x ≡ a
    → uclamp_bucket_id buckets y ≡ b
    → a < b
    → x ≤ y
below_top buckets a b x y e h lt = ground (arith, bucket_id_mono buckets y x)

-- The scan from the top stops at the greatest value of the buckets with tasks, if the value of each of
-- them belongs in its bucket.
pub top_bucket-IsHighest :
    (buckets n : ℕ) (f : ℕ → UclampBucket) (v : ℕ)
    → IsPlaced buckets n f
    → top_bucket n f ≡ some v
    → IsHighest n f v
unfolding top_bucket
top_bucket-IsHighest buckets zero f v placed e = cc
top_bucket-IsHighest buckets (suc n) f v placed e = elim (Bool-cases ((f n).tasks == 0)) [
  | inl empty ↦
      let h =
        top_bucket-IsHighest buckets n f v (λ b lt. placed b (omega arith))
          (ground (arith, e, empty)) in
      record {
        upper = λ b lt used. elim (Bool-cases (b == n)) [
          | inl top ↦ ground (arith, top, used, empty)
          | inr other ↦ h.upper b (ground (arith, lt, other)) used
        ];
        at = h.at;
        at-lt = omega (arith, h.at-lt);
        at-Used = h.at-Used;
        attained = h.attained;
      }
  | inr used_top ↦
      let same : (f n).value ≡ v = ground (arith, e, used_top) in
      record {
        upper = λ b lt used. elim (Bool-cases (b == n)) [
          | inl top ↦ ground (arith, top, same)
          | inr other ↦
              let lower =
                below_top buckets b n (f b).value (f n).value (placed b lt used)
                  (placed n (omega arith) used_top) (ground (arith, lt, other)) in
              omega (arith, lower, same)
        ];
        at = n;
        at-lt = omega arith;
        at-Used = used_top;
        attained = same;
      }
]

pub top_bucket-none :
    (n : ℕ) (f : ℕ → UclampBucket) → top_bucket n f ≡ none → (b : ℕ) → b < n → (f b).tasks ≡ 0
unfolding top_bucket
top_bucket-none zero f e b lt = omega arith
top_bucket-none (suc n) f e b lt = elim (Bool-cases ((f n).tasks == 0)) [
  | inl empty ↦ elim (Bool-cases (b == n)) [
    | inl top ↦ ground (arith, top, empty)
    | inr other ↦ top_bucket-none n f (ground (arith, e, empty)) b (ground (arith, lt, other))
  ]
  | inr used ↦ ground (arith, e, used)
]

pub top_bucket-empty :
    (n : ℕ) (f : ℕ → UclampBucket) → ((b : ℕ) → (f b).tasks ≡ 0) → top_bucket n f ≡ none
unfolding top_bucket
top_bucket-empty zero f h = refl
top_bucket-empty (suc n) f h = rw (h n) (top_bucket-empty n f h)
