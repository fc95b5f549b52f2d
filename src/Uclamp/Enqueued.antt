-- ===== src/Uclamp/Enqueued.antt =====
-- The clamps of a run queue over its life: `init_uclamp_rq`, `uclamp_rq_inc` and `uclamp_rq_dec` of
-- kernel/sched/core.c.
use lottery_scheduler.Base.{
  ℕ, ◌<◌, ◌≡◌, refl, ◌∙◌, true, false, List, [], ◌∷◌, arith, has, distinct, write_at,
}
use lottery_scheduler.Uclamp.Values.{UclampId, uclamp_min, uclamp_max, write_id, Clamps}
use lottery_scheduler.Uclamp.Rq.{
  uclamp_rq_set, set_bucket, set_se, uclamp_idle_reset, raise_rq, uclamp_rq_inc_id, uclamp_rq_inc,
  init_uclamp_rq,
}
use lottery_scheduler.Uclamp.Clamped.{IsCounted-ext, is_empty}
use lottery_scheduler.Uclamp.Kept.{IsFiled, Counted, inc_id-Counted, both_ids, past_guards}

-- The clamps with the runnable tasks `ps`: both indexes are counted, the idle flag says that there are
-- none, and no warning has fired; the accounting is on, also for the classes of these tasks.
pub record IsClamped (buckets : ℕ) (ps : List ℕ) (s : Clamps) : Type 0 where
  pub counted : (id : UclampId) → Counted buckets ps s id
  pub idle : s.idle ≡ is_empty ps
  pub set : IsFiled buckets s
  pub once : distinct ps ≡ true
  pub quiet : s.warned ≡ false
  pub used : s.used ≡ true
  pub enabled : (q : ℕ) → has q ps ≡ true → s.enabled q ≡ true

module _ (n : ℕ) (s : Clamps) (p : ℕ) where
  pub inc_min-Counted :
      {ps : List ℕ}
      → Counted n ps s uclamp_max
      → Counted n ps (uclamp_rq_inc_id s p uclamp_min) uclamp_max
  unfolding uclamp_rq_inc_id set_se uclamp_idle_reset uclamp_rq_set set_bucket raise_rq write_id
      write_at
  inc_min-Counted c = IsCounted-ext (ground arith) (λ b. ground arith) (λ q. ground arith) c

  pub inc_max-Counted :
      {ps : List ℕ}
      → Counted n ps s uclamp_min
      → Counted n ps (uclamp_rq_inc_id s p uclamp_max) uclamp_min
  unfolding uclamp_rq_inc_id set_se uclamp_idle_reset uclamp_rq_set set_bucket raise_rq write_id
      write_at
  inc_max-Counted c = IsCounted-ext (ground arith) (λ b. ground arith) (λ q. ground arith) c

  pub inc-IsFiled : (id : UclampId) → IsFiled n s → IsFiled n (uclamp_rq_inc_id s p id)
  unfolding uclamp_rq_inc_id set_se uclamp_idle_reset uclamp_rq_set set_bucket raise_rq
  inc-IsFiled id w = record {
    request = λ q j. ground (arith, w.request q j);
    default = λ j. ground (arith, w.default j);
  }

  pub inc-idle : (id : UclampId) → (uclamp_rq_inc_id s p id).idle ≡ s.idle
  unfolding uclamp_rq_inc_id set_se uclamp_idle_reset uclamp_rq_set set_bucket raise_rq
  inc-idle id = ground arith

  pub inc-warned : (id : UclampId) → (uclamp_rq_inc_id s p id).warned ≡ s.warned
  unfolding uclamp_rq_inc_id set_se uclamp_idle_reset uclamp_rq_set set_bucket raise_rq
  inc-warned id = ground arith

  pub inc-used : (id : UclampId) → (uclamp_rq_inc_id s p id).used ≡ s.used
  unfolding uclamp_rq_inc_id set_se uclamp_idle_reset uclamp_rq_set set_bucket raise_rq
  inc-used id = ground arith

  pub inc-enabled : (id : UclampId) (q : ℕ) → (uclamp_rq_inc_id s p id).enabled q ≡ s.enabled q
  unfolding uclamp_rq_inc_id set_se uclamp_idle_reset uclamp_rq_set set_bucket raise_rq
  inc-enabled id q = ground arith

counted_in :
    (n : ℕ) (ps : List ℕ) (s : Clamps) (p : ℕ)
    → 0 < n
    → has p ps ≡ false
    → s.enabled p ≡ true
    → IsClamped n ps s
    → IsClamped n
        (p ∷ ps)
        (record (uclamp_rq_inc_id (uclamp_rq_inc_id s p uclamp_min) p uclamp_max) { idle = false })
counted_in n ps s p pos out able c =
    let s1 = uclamp_rq_inc_id s p uclamp_min in
    let s2 = uclamp_rq_inc_id s1 p uclamp_max in
    let idle1 : s1.idle ≡ is_empty ps = inc-idle n s p uclamp_min ∙ c.idle in
    let set1 = inc-IsFiled n s p uclamp_min c.set in
    let set2 = inc-IsFiled n s1 p uclamp_max set1 in
    record {
      counted =
          both_ids (record s2 { idle = false })
            (inc_max-Counted n s1 p
              (inc_id-Counted p uclamp_min pos c.set c.idle out (c.counted uclamp_min)))
            (inc_id-Counted p uclamp_max pos set1 idle1 out
              (inc_min-Counted n s p (c.counted uclamp_max)));
      idle = refl;
      set = record { request = set2.request; default = set2.default };
      once = ground (arith, out, c.once);
      quiet = inc-warned n s1 p uclamp_max ∙ inc-warned n s p uclamp_min ∙ c.quiet;
      used = inc-used n s1 p uclamp_max ∙ inc-used n s p uclamp_min ∙ c.used;
      enabled = λ q h.
          inc-enabled n s1 p uclamp_max q
          ∙ inc-enabled n s p uclamp_min q
          ∙ ground (arith, able, c.enabled q, h);
    }

-- Enqueuing a task that is not counted, of a class that takes part, keeps the clamps of the run queue,
-- and no warning fires.
pub uclamp_rq_inc-IsClamped :
    (n : ℕ) (ps : List ℕ) (s : Clamps) (p : ℕ)
    → 0 < n
    → has p ps ≡ false
    → s.enabled p ≡ true
    → IsClamped n ps s
    → IsClamped n (p ∷ ps) (uclamp_rq_inc s p)
unfolding uclamp_rq_inc
uclamp_rq_inc-IsClamped n ps s p pos out able c =
    past_guards (IsClamped n (p ∷ ps)) s.used (s.enabled p) s _ c.used able
      (counted_in n ps s p pos out able c)

-- A fresh run queue has no runnable tasks, whatever it was before.
pub init_uclamp_rq-IsClamped :
    (n : ℕ) (s : Clamps)
    → IsFiled n s
    → ((q : ℕ) (id : UclampId) → (s.se q id).active ≡ false)
    → s.warned ≡ false
    → s.used ≡ true
    → IsClamped n [] (init_uclamp_rq s)
unfolding init_uclamp_rq
init_uclamp_rq-IsClamped n s w off quiet on = record {
  counted = λ id. record {
    tasks = λ b. refl;
    active = λ q. off q id;
    fits = λ q h. cc;
    below = λ q h. cc;
    placed = λ b lt used. cc;
    highest = λ q h. cc;
  };
  idle = refl;
  set = record { request = w.request; default = w.default };
  once = refl;
  quiet = quiet;
  used = on;
  enabled = λ q h. cc;
}
