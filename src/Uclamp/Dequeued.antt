-- ===== src/Uclamp/Dequeued.antt =====
-- `uclamp_rq_dec` of kernel/sched/core.c keeps the clamps of a run queue, and its warnings do not fire.
use lottery_scheduler.Base.{
  ℕ, ◌<◌, ◌≡◌, refl, ◌∙◌, true, false, List, [], ◌∷◌, arith, has, remove, distinct, distinct-remove,
  has-remove_iff, write_at,
}
use lottery_scheduler.Uclamp.Values.{UclampId, uclamp_min, uclamp_max, write_id, Clamps}
use lottery_scheduler.Uclamp.Rq.{
  uclamp_rq_set, set_bucket, set_se, uclamp_idle_value, value_or_idle, uclamp_rq_max_value,
  lower_rq, uclamp_rq_dec_id, uclamp_rq_dec,
}
use lottery_scheduler.Uclamp.Clamped.{IsCounted-ext, is_empty}
use lottery_scheduler.Uclamp.Left.{goes_idle, dec-IsCounted}
use lottery_scheduler.Uclamp.Highest.{bucket_id-lt}
use lottery_scheduler.Uclamp.Clamped.{member-counted}
use lottery_scheduler.Uclamp.Kept.{IsFiled, Counted, dec_id-Counted, both_ids, past_guards}
use lottery_scheduler.Uclamp.Enqueued.{IsClamped}

module _ (n : ℕ) (s : Clamps) (p : ℕ) where
  pub dec_min-Counted :
      {ps : List ℕ}
      → Counted n ps s uclamp_max
      → Counted n ps (uclamp_rq_dec_id n s p uclamp_min) uclamp_max
  unfolding uclamp_rq_dec_id set_se set_bucket lower_rq uclamp_rq_max_value value_or_idle
      uclamp_idle_value uclamp_rq_set write_id write_at
  dec_min-Counted c = IsCounted-ext (ground arith) (λ b. ground arith) (λ q. ground arith) c

  pub dec_max-Counted :
      {ps : List ℕ}
      → Counted n ps s uclamp_min
      → Counted n ps (uclamp_rq_dec_id n s p uclamp_max) uclamp_min
  unfolding uclamp_rq_dec_id set_se set_bucket lower_rq uclamp_rq_max_value value_or_idle
      uclamp_idle_value uclamp_rq_set write_id write_at
  dec_max-Counted c = IsCounted-ext (ground arith) (λ b. ground arith) (λ q. ground arith) c

  pub dec-IsFiled : (id : UclampId) → IsFiled n s → IsFiled n (uclamp_rq_dec_id n s p id)
  unfolding uclamp_rq_dec_id set_se set_bucket lower_rq uclamp_rq_max_value value_or_idle
      uclamp_idle_value uclamp_rq_set
  dec-IsFiled id w = record {
    request = λ q j. ground (arith, w.request q j);
    default = λ j. ground (arith, w.default j);
  }

  pub dec_min-idle : (uclamp_rq_dec_id n s p uclamp_min).idle ≡ s.idle
  unfolding uclamp_rq_dec_id set_se set_bucket lower_rq uclamp_rq_max_value value_or_idle
      uclamp_idle_value uclamp_rq_set
  dec_min-idle = ground arith

  pub dec-used : (id : UclampId) → (uclamp_rq_dec_id n s p id).used ≡ s.used
  unfolding uclamp_rq_dec_id set_se set_bucket lower_rq uclamp_rq_max_value value_or_idle
      uclamp_idle_value uclamp_rq_set
  dec-used id = ground arith

  pub dec-enabled : (id : UclampId) (q : ℕ) → (uclamp_rq_dec_id n s p id).enabled q ≡ s.enabled q
  unfolding uclamp_rq_dec_id set_se set_bucket lower_rq uclamp_rq_max_value value_or_idle
      uclamp_idle_value uclamp_rq_set
  dec-enabled id q = ground arith

  -- The bucket of the task is not empty and not above the clamp of the run queue.
  pub dec-warned :
      {ps : List ℕ} (id : UclampId)
      → 0 < n
      → has p ps ≡ true
      → Counted n ps s id
      → (uclamp_rq_dec_id n s p id).warned ≡ s.warned
  unfolding uclamp_rq_dec_id set_se set_bucket lower_rq uclamp_rq_max_value value_or_idle
      uclamp_idle_value uclamp_rq_set
  dec-warned {ps} id pos there c =
      let b = (s.se p id).bucket_id in
      let counts = c.tasks b in
      let one_in = member-counted (λ q. s.se q id) p ps there in
      let lt : b < n = omega (arith, c.fits p there, bucket_id-lt n (s.se p id).value pos) in
      let top = (c.highest p there).upper b lt (ground (arith, counts, one_in)) in
      ground (arith, c.active p, there, counts, one_in, top)

  -- The clamp that is retained tells that the run queue is idle.
  pub dec_max-idle :
      {ps : List ℕ}
      → 0 < n
      → distinct ps ≡ true
      → has p ps ≡ true
      → s.idle ≡ false
      → Counted n ps s uclamp_max
      → (uclamp_rq_dec_id n s p uclamp_max).idle ≡ is_empty (remove p ps)
  unfolding uclamp_rq_dec_id set_se set_bucket lower_rq uclamp_rq_max_value value_or_idle
      uclamp_idle_value uclamp_rq_set write_id
  dec_max-idle {ps} pos once there busy c =
      let b = (s.se p uclamp_max).bucket_id in
      let left = dec-IsCounted p 0 pos once there c in
      let idles =
        goes_idle (remove p ps) (s.rq uclamp_max).bucket b (s.rq uclamp_max).value pos
          (c.highest p there) left in
      ground (arith, busy, c.active p, there, idles)

pub busy_with : (p : ℕ) (ps : List ℕ) → has p ps ≡ true → is_empty ps ≡ false
busy_with p [] h = cc
busy_with p (x ∷ xs) h = refl

counted_out :
    (n : ℕ) (ps : List ℕ) (s : Clamps) (p : ℕ)
    → 0 < n
    → has p ps ≡ true
    → IsClamped n ps s
    → IsClamped n
        (remove p ps)
        (uclamp_rq_dec_id n (uclamp_rq_dec_id n s p uclamp_min) p uclamp_max)
counted_out n ps s p pos there c =
    let s1 = uclamp_rq_dec_id n s p uclamp_min in
    let max1 = dec_min-Counted n s p (c.counted uclamp_max) in
    let busy : s1.idle ≡ false = dec_min-idle n s p ∙ c.idle ∙ busy_with p ps there in
    record {
      counted =
          both_ids (uclamp_rq_dec_id n s1 p uclamp_max)
            (dec_max-Counted n s1 p
              (dec_id-Counted s p uclamp_min pos c.once there (c.counted uclamp_min)))
            (dec_id-Counted s1 p uclamp_max pos c.once there max1);
      idle = dec_max-idle n s1 p pos c.once there busy max1;
      set = dec-IsFiled n s1 p uclamp_max (dec-IsFiled n s p uclamp_min c.set);
      once = distinct-remove p ps c.once;
      quiet =
          dec-warned n s1 p uclamp_max pos there max1
          ∙ dec-warned n s p uclamp_min pos there (c.counted uclamp_min)
          ∙ c.quiet;
      used = dec-used n s1 p uclamp_max ∙ dec-used n s p uclamp_min ∙ c.used;
      enabled = λ q h.
          dec-enabled n s1 p uclamp_max q
          ∙ dec-enabled n s p uclamp_min q
          ∙ c.enabled q (ground (arith, has-remove_iff q p ps c.once, h));
    }

-- Dequeuing a task that is counted keeps the clamps of the run queue, and no warning fires.
pub uclamp_rq_dec-IsClamped :
    (n : ℕ) (ps : List ℕ) (s : Clamps) (p : ℕ)
    → 0 < n
    → has p ps ≡ true
    → IsClamped n ps s
    → IsClamped n (remove p ps) (uclamp_rq_dec n s p)
unfolding uclamp_rq_dec
uclamp_rq_dec-IsClamped n ps s p pos there c =
    past_guards (IsClamped n (remove p ps)) s.used (s.enabled p) s _ c.used (c.enabled p there)
      (counted_out n ps s p pos there c)
