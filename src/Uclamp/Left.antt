-- ===== src/Uclamp/Left.antt =====
-- One task less in the buckets of a run queue: `uclamp_rq_dec_id` of kernel/sched/core.c, seen from one
-- clamp index.
use lottery_scheduler.Base.{
  ℕ, ◌-◌, ◌<◌, ◌≡◌, refl, Bool, true, false, Option, none, some, List, [], ◌∷◌, arith, ◌&&◌, not,
  ◌==◌, if◌then◌else◌, leb, Bool-cases, inl, inr, has, remove, distinct, sum_by, sum_by-ext_off,
  sum_by-remove, has-remove_self, has-remove_iff, write_at,
}
use lottery_scheduler.Uclamp.Values.{UclampSe, UclampBucket, UclampRq}
use lottery_scheduler.Uclamp.Rq.{top_bucket}
use lottery_scheduler.Uclamp.Highest.{
  Used, IsPlaced, IsHighest, bucket_id-lt, top_bucket-IsHighest, top_bucket-none, top_bucket-empty,
}
use lottery_scheduler.Uclamp.Clamped.{IsCounted, in_bucket, member-counted, is_empty}

unfoldable pub or_else : Option ℕ → ℕ → ℕ
or_else (some v) d = v
or_else none d = d

abbrev pub without_task : (ℕ → UclampBucket) → (b : ℕ) → ℕ → UclampBucket
without_task f b = write_at f b (record (f b) { tasks = (f b).tasks - 1 })

-- The clamp of the run queue when a task has left bucket `b`; `d` is what is set without tasks.
unfoldable pub lowered : (buckets : ℕ) → (ℕ → UclampBucket) → (clamp b d : ℕ) → ℕ
unfolding or_else
lowered n f v b d =
    if not ((f b).tasks - 1 == 0)
    then v
    else if leb v (f b).value
    then or_else (top_bucket n (without_task f b)) d
    else v

module _ {n : ℕ} (f : ℕ → UclampBucket) (b : ℕ) (v d : ℕ) (h : IsHighest n f v) where
  stays-IsHighest : ((f b).tasks - 1 == 0) ≡ false → IsHighest n (without_task f b) v
  unfolding write_at
  stays-IsHighest left = record {
    upper = λ c lt used. ground (arith, h.upper c lt, used, left);
    at = h.at;
    at-lt = h.at-lt;
    at-Used = ground (arith, h.at-Used, left);
    attained = ground (arith, h.attained);
  }

  lower-IsHighest : leb v (f b).value ≡ false → IsHighest n (without_task f b) v
  unfolding write_at
  lower-IsHighest less = record {
    upper = λ c lt used. ground (arith, h.upper c lt, used, less);
    at = h.at;
    at-lt = h.at-lt;
    at-Used = ground (arith, h.at-Used, h.attained, less);
    attained = ground (arith, h.attained);
  }

found-IsHighest :
    (n : ℕ) (f : ℕ → UclampBucket) (b d : ℕ)
    → IsPlaced n n f
    → b < n
    → Used (f b)
    → (o : Option ℕ) → top_bucket n f ≡ o
    → IsHighest n f (or_else o d)
unfolding or_else
found-IsHighest n f b d placed lt used (some v) e = top_bucket-IsHighest n n f v placed e
found-IsHighest n f b d placed lt used none e = ground (arith, top_bucket-none n f e b lt, used)

lowered-IsHighest :
    {n : ℕ} (f : ℕ → UclampBucket) (b v d c : ℕ)
    → IsHighest n f v
    → IsPlaced n n (without_task f b)
    → c < n
    → Used (without_task f b c)
    → IsHighest n (without_task f b) (lowered n f v b d)
unfolding lowered
lowered-IsHighest {n} f b v d c h placed lt used = elim (Bool-cases ((f b).tasks - 1 == 0)) [
  | inr left ↦ rw left (stays-IsHighest f b v d h left)
  | inl last ↦ elim (Bool-cases (leb v (f b).value)) [
    | inr less ↦ rw (last, less) (lower-IsHighest f b v d h less)
    | inl top ↦ rw (last, top) (found-IsHighest n (without_task f b) c d placed lt used _ refl)
  ]
]

-- One task less: the clamp of the run queue is what `lowered` says, and the task is not active.
pub dec-IsCounted :
    {n : ℕ} {ps : List ℕ} {rq : UclampRq} {se : ℕ → UclampSe} (p d : ℕ)
    → 0 < n
    → distinct ps ≡ true
    → has p ps ≡ true
    → IsCounted n ps rq se
    → IsCounted n
        (remove p ps)
        (record {
          value = lowered n rq.bucket rq.value (se p).bucket_id d;
          bucket = without_task rq.bucket (se p).bucket_id;
        })
        (write_at se p (record (se p) { active = false }))
unfolding write_at
dec-IsCounted {n} {ps} {rq} {se} p d pos once there c =
    let se' : ℕ → UclampSe = write_at se p (record (se p) { active = false }) in
    let tasks' : (b : ℕ)
        → (without_task rq.bucket (se p).bucket_id b).tasks
          ≡ sum_by (in_bucket se' b) (remove p ps) =
      λ b. ground (
        arith,
        c.tasks b,
        sum_by-remove (in_bucket se b) p ps there,
        sum_by-ext_off (in_bucket se b) (in_bucket se' b) p (remove p ps)
            (has-remove_self p ps once) (λ q other. ground arith),
      ) in
    let placed' : IsPlaced n n (without_task rq.bucket (se p).bucket_id) =
      λ b lt used. ground (arith, c.placed b lt, used) in
    record {
      tasks = tasks';
      active = λ q. ground (arith, c.active q, has-remove_iff q p ps once);
      fits = λ q h. ground (arith, c.fits q, has-remove_iff q p ps once, h);
      below = λ q h. ground (arith, c.below q, has-remove_iff q p ps once, h);
      placed = placed';
      highest = λ q h.
          let in_ps : has q ps ≡ true = ground (arith, has-remove_iff q p ps once, h) in
          lowered-IsHighest rq.bucket (se p).bucket_id rq.value d (se q).bucket_id
            (c.highest p there) placed'
            (omega (arith, c.fits q in_ps, bucket_id-lt n (se q).value pos))
            (ground (arith, tasks' (se q).bucket_id, member-counted se' q (remove p ps) h));
    }

abbrev pub is_none : Option ℕ → Bool
is_none none = true
is_none (some v) = false

-- The last task of the run queue leaves: its bucket gets empty, was the highest, and no other is found.
pub goes_idle :
    {n : ℕ} (qs : List ℕ) {w : ℕ} {se : ℕ → UclampSe} (f : ℕ → UclampBucket) (b v : ℕ)
    → 0 < n
    → IsHighest n f v
    → IsCounted n qs (record { value = w; bucket = without_task f b }) se
    → (((f b).tasks - 1 == 0) && (leb v (f b).value && is_none (top_bucket n (without_task f b))))
      ≡ is_empty qs
unfolding write_at
goes_idle {n} [] f b v pos h c =
    let none_left = top_bucket-empty n (without_task f b) c.tasks in
    let here = c.tasks b in
    let there = c.tasks h.at in ground (arith, none_left, here, there, h.at-Used, h.attained)
goes_idle {n} (q ∷ qs) {w} {se} f b v pos h c = go (top_bucket n (without_task f b)) refl
  where
    go :
        (o : Option ℕ)
        → top_bucket n (without_task f b) ≡ o
        → (((f b).tasks - 1 == 0) && (leb v (f b).value && is_none o)) ≡ false
    go (some x) e = ground arith
    go none e =
        let d = (se q).bucket_id in
        let in_list : has q (q ∷ qs) ≡ true = ground arith in
        let lt : d < n = omega (arith, c.fits q in_list, bucket_id-lt n (se q).value pos) in
        ground (
          arith,
          top_bucket-none n (without_task f b) e d lt,
          c.tasks d,
          member-counted se q (q ∷ qs) in_list,
        )
