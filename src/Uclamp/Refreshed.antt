-- ===== src/Uclamp/Refreshed.antt =====
-- `uclamp_rq_reinc_id` of kernel/sched/core.c: a runnable task gets its new clamp.
use lottery_scheduler.Base.{
  ℕ, ◌<◌, ◌≡◌, refl, sym, ◌∙◌, Bool, true, false, List, ◌∷◌, arith, if◌then◌else◌, has, remove,
  distinct, has-remove_iff, has-remove_self, sum_by-remove, distinct-remove, write_at,
}
use lottery_scheduler.Uclamp.Values.{
  UclampId, UclampRq, UclampSe, uclamp_min, uclamp_max, write_id, uclamp_none, Clamps,
  uclamp_eff_get,
}
use lottery_scheduler.Uclamp.Rq.{
  uclamp_rq_set, set_bucket, set_se, uclamp_idle_value, uclamp_idle_reset, value_or_idle,
  uclamp_rq_max_value, inc_bucket, raise_rq, lower_rq, uclamp_rq_inc_id, uclamp_rq_dec_id,
  uclamp_rq_reinc_id,
}
use lottery_scheduler.Uclamp.Clamped.{
  IsCounted, IsCounted-ext, in_bucket, is_empty, raised, inc-IsCounted,
}
use lottery_scheduler.Uclamp.Left.{goes_idle, dec-IsCounted}
use lottery_scheduler.Uclamp.Kept.{
  IsFiled, Counted, inc_id-Counted, dec_id-Counted, both_ids, eff_get-fits,
}
use lottery_scheduler.Uclamp.Enqueued.{
  IsClamped, inc_min-Counted, inc_max-Counted, inc-IsFiled, inc-idle, inc-warned, inc-used,
  inc-enabled,
}
use lottery_scheduler.Uclamp.Dequeued.{
  dec_min-Counted, dec_max-Counted, dec-IsFiled, dec_min-idle, dec-used, dec-enabled, dec-warned,
  dec_max-idle, busy_with,
}

-- The runnable task `p`, taken out and put first again.
abbrev pub again : ℕ → List ℕ → List ℕ
again p ps = p ∷ remove p ps

module _ (p : ℕ) (ps : List ℕ) (once : distinct ps ≡ true) (there : has p ps ≡ true) where
  has-again : (q : ℕ) → has q (again p ps) ≡ has q ps
  has-again q = ground (arith, has-remove_iff q p ps once, there)

  again-Counted :
      {n : ℕ} {rq : UclampRq} {se : ℕ → UclampSe}
      → IsCounted n ps rq se
      → IsCounted n (again p ps) rq se
  again-Counted {n} {rq} {se} c = record {
    tasks = λ b. ground (arith, c.tasks b, sum_by-remove (in_bucket se b) p ps there);
    active = λ q. c.active q ∙ sym (has-again q);
    fits = λ q h. c.fits q (sym (has-again q) ∙ h);
    below = λ q h. c.below q (sym (has-again q) ∙ h);
    placed = c.placed;
    highest = λ q h. c.highest q (sym (has-again q) ∙ h);
  }

-- The min clamp that is dropped when the run queue gets idle is not above any other.
dec_min-low :
    (n : ℕ) (s : Clamps) (p : ℕ) {ps : List ℕ}
    → 0 < n
    → distinct ps ≡ true
    → has p ps ≡ true
    → Counted n ps s uclamp_min
    → is_empty (remove p ps) ≡ true
    → ((uclamp_rq_dec_id n s p uclamp_min).rq uclamp_min).value ≡ 0
unfolding uclamp_rq_dec_id set_se set_bucket lower_rq uclamp_rq_max_value value_or_idle
    uclamp_idle_value uclamp_rq_set write_id uclamp_none
dec_min-low n s p {ps} pos once there c empty =
    let b = (s.se p uclamp_min).bucket_id in
    let left = dec-IsCounted p 0 pos once there c in
    let idles =
      goes_idle (remove p ps) (s.rq uclamp_min).bucket b (s.rq uclamp_min).value pos
        (c.highest p there) left in
    ground (arith, c.active p, there, idles, empty)

inc_min_busy-Counted :
    {n : ℕ} {ps : List ℕ} {s : Clamps} (p : ℕ)
    → 0 < n
    → IsFiled n s
    → s.idle ≡ false
    → (is_empty ps ≡ true → (s.rq uclamp_min).value ≡ 0)
    → has p ps ≡ false
    → Counted n ps s uclamp_min
    → Counted n (p ∷ ps) (uclamp_rq_inc_id s p uclamp_min) uclamp_min
unfolding uclamp_rq_inc_id set_se uclamp_idle_reset uclamp_rq_set set_bucket raise_rq write_id
    write_at inc_bucket raised
inc_min_busy-Counted {n} {ps} {s} p pos w busy low out c =
    IsCounted-ext (ground (arith, busy, low)) (λ b. ground (arith, busy))
      (λ q. ground (arith, busy))
      (inc-IsCounted p (record (uclamp_eff_get s p uclamp_min) { active = true }) pos out refl
        (eff_get-fits w p uclamp_min) c)

module _ (n : ℕ) (ps : List ℕ) (s : Clamps) (p : ℕ) (pos : 0 < n) (there : has p ps ≡ true)
    (c : IsClamped n ps s) where
  -- What both indexes share.
  refreshed :
      (id : UclampId) (i : Bool)
      → i ≡ false
      → ((j : UclampId)
          → Counted n
              (again p ps)
              (record (uclamp_rq_inc_id (uclamp_rq_dec_id n s p id) p id) { idle = i })
              j)
      → IsClamped n
          (again p ps)
          (record (uclamp_rq_inc_id (uclamp_rq_dec_id n s p id) p id) { idle = i })
  refreshed id i busy counts =
      let s1 = uclamp_rq_dec_id n s p id in
      let set2 = inc-IsFiled n s1 p id (dec-IsFiled n s p id c.set) in
      record {
        counted = counts;
        idle = busy;
        set = record { request = set2.request; default = set2.default };
        once = ground (arith, distinct-remove p ps c.once, has-remove_self p ps c.once);
        quiet = inc-warned n s1 p id ∙ dec-warned n s p id pos there (c.counted id) ∙ c.quiet;
        used = inc-used n s1 p id ∙ dec-used n s p id ∙ c.used;
        enabled = λ q h.
            inc-enabled n s1 p id q
            ∙ dec-enabled n s p id q
            ∙ c.enabled q (sym (has-again p ps c.once there q) ∙ h);
      }

  min_refreshed :
      IsClamped n (again p ps) (uclamp_rq_inc_id (uclamp_rq_dec_id n s p uclamp_min) p uclamp_min)
  min_refreshed =
      let s1 = uclamp_rq_dec_id n s p uclamp_min in
      let s2 = uclamp_rq_inc_id s1 p uclamp_min in
      let busy : s1.idle ≡ false = dec_min-idle n s p ∙ c.idle ∙ busy_with p ps there in
      let low = c.counted uclamp_min in
      refreshed uclamp_min s2.idle (inc-idle n s1 p uclamp_min ∙ busy) (
        both_ids s2
          (inc_min_busy-Counted p pos (dec-IsFiled n s p uclamp_min c.set) busy
            (dec_min-low n s p pos c.once there low) (has-remove_self p ps c.once)
            (dec_id-Counted s p uclamp_min pos c.once there low))
          (inc_min-Counted n s1 p
            (dec_min-Counted n s p (again-Counted p ps c.once there (c.counted uclamp_max)))))

  max_refreshed :
      IsClamped n
        (again p ps)
        (record (uclamp_rq_inc_id (uclamp_rq_dec_id n s p uclamp_max) p uclamp_max) {
          idle = false;
        })
  max_refreshed =
      let s1 = uclamp_rq_dec_id n s p uclamp_max in
      let s2 = uclamp_rq_inc_id s1 p uclamp_max in
      let high = c.counted uclamp_max in
      refreshed uclamp_max false refl (
        both_ids (record s2 { idle = false })
          (inc_max-Counted n s1 p
            (dec_max-Counted n s p (again-Counted p ps c.once there (c.counted uclamp_min))))
          (inc_id-Counted p uclamp_max pos (dec-IsFiled n s p uclamp_max c.set)
            (dec_max-idle n s p pos c.once there (c.idle ∙ busy_with p ps there) high)
            (has-remove_self p ps c.once) (dec_id-Counted s p uclamp_max pos c.once there high)))

past_guard :
    (P : Clamps → Type 0) (b : Bool) (s t : Clamps) → b ≡ true → P t → P (if b then t else s)
past_guard P true s t e h = h
past_guard P false s t e h = cc

-- When the request of a runnable task has changed, refreshing either clamp of the task keeps the clamps
-- of the run queue, for the same tasks with this one first, and no warning fires.
pub uclamp_rq_reinc_id-IsClamped :
    (n : ℕ) (ps : List ℕ) (s : Clamps) (p : ℕ) (id : UclampId)
    → 0 < n
    → has p ps ≡ true
    → IsClamped n ps s
    → IsClamped n (again p ps) (uclamp_rq_reinc_id n s p id)
unfolding uclamp_rq_reinc_id
uclamp_rq_reinc_id-IsClamped n ps s p uclamp_min pos there c =
    past_guard (IsClamped n (again p ps)) (s.se p uclamp_min).active s _
      ((c.counted uclamp_min).active p ∙ there) (min_refreshed n ps s p pos there c)
uclamp_rq_reinc_id-IsClamped n ps s p uclamp_max pos there c =
    past_guard (IsClamped n (again p ps)) (s.se p uclamp_max).active s _
      ((c.counted uclamp_max).active p ∙ there) (max_refreshed n ps s p pos there c)
