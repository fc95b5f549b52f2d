-- ===== src/Uclamp/Promise.antt =====
-- What the clamps of a run queue promise after any run of the operations on them: kernel/sched/core.c,
-- the comments above `uclamp_rq_inc_id` and `uclamp_rq_dec_id`.
use lottery_scheduler.Base.{
  ℕ, ◌<◌, ◌≤◌, ◌≡◌, true, false, List, [], ◌∷◌, arith, has, remove, write_at,
}
use lottery_scheduler.Uclamp.Values.{
  uclamp_bucket_id, UclampId, uclamp_min, uclamp_max, Clamps, uclamp_eff_value, uclamp_se_set,
  write_id,
}
use lottery_scheduler.Uclamp.Rq.{init_uclamp_rq, uclamp_rq_inc, uclamp_rq_dec, uclamp_rq_reinc_id}
use lottery_scheduler.Uclamp.Highest.{IsHighest, bucket_id-lt}
use lottery_scheduler.Uclamp.Clamped.{member-counted}
use lottery_scheduler.Uclamp.Enqueued.{IsClamped, init_uclamp_rq-IsClamped, uclamp_rq_inc-IsClamped}
use lottery_scheduler.Uclamp.Kept.{IsFiled}
use lottery_scheduler.Uclamp.Dequeued.{uclamp_rq_dec-IsClamped}
use lottery_scheduler.Uclamp.Refreshed.{again, uclamp_rq_reinc_id-IsClamped}

-- `uclamp_se_set(&p->uclamp_req[id], value, true)` of __setscheduler_uclamp
unfoldable pub set_request : (buckets : ℕ) → Clamps → (p : ℕ) → UclampId → (value : ℕ) → Clamps
unfolding write_at write_id uclamp_se_set
set_request n s p id v = record s {
  request =
      write_at s.request p (write_id (s.request p) id (uclamp_se_set n (s.request p id) v true));
}

-- A run queue at boot: the values are in their buckets, no task is counted, and the key is on.
pub record IsBooted (n : ℕ) (s : Clamps) : Type 0 where
  pub set : IsFiled n s
  pub off : (q : ℕ) (id : UclampId) → (s.se q id).active ≡ false
  pub quiet : s.warned ≡ false
  pub used : s.used ≡ true

-- Tasks come and go, ask for new clamps and have them refreshed, in any order; with the tasks that are
-- runnable after it.
pub data Run (n : ℕ) (s0 : Clamps) : List ℕ → Clamps → Type 0 where
  at_boot : Run n s0 [] (init_uclamp_rq s0)
  inc :
      {ps : List ℕ} {s : Clamps} (p : ℕ)
      → Run n s0 ps s
      → has p ps ≡ false
      → s.enabled p ≡ true
      → Run n s0 (p ∷ ps) (uclamp_rq_inc s p)
  dec :
      {ps : List ℕ} {s : Clamps} (p : ℕ)
      → Run n s0 ps s
      → has p ps ≡ true
      → Run n s0 (remove p ps) (uclamp_rq_dec n s p)
  ask :
      {ps : List ℕ} {s : Clamps} (p : ℕ) (id : UclampId) (value : ℕ)
      → Run n s0 ps s
      → Run n s0 ps (set_request n s p id value)
  refresh :
      {ps : List ℕ} {s : Clamps} (p : ℕ) (id : UclampId)
      → Run n s0 ps s
      → has p ps ≡ true
      → Run n s0 (again p ps) (uclamp_rq_reinc_id n s p id)

filed :
    (n : ℕ) (s : Clamps) (p q : ℕ) (id j : UclampId) (v : ℕ)
    → IsFiled n s
    → uclamp_bucket_id n ((set_request n s p id v).request q j).value
      ≡ ((set_request n s p id v).request q j).bucket_id
unfolding set_request uclamp_se_set write_at write_id
filed n s p q uclamp_min uclamp_min v w = ground (arith, w.request q uclamp_min)
filed n s p q uclamp_min uclamp_max v w =
    ground (arith, w.request q uclamp_max, w.request p uclamp_max)
filed n s p q uclamp_max uclamp_min v w =
    ground (arith, w.request q uclamp_min, w.request p uclamp_min)
filed n s p q uclamp_max uclamp_max v w = ground (arith, w.request q uclamp_max)

set_request-IsFiled :
    (n : ℕ) (s : Clamps) (p : ℕ) (id : UclampId) (v : ℕ)
    → IsFiled n s
    → IsFiled n (set_request n s p id v)
unfolding set_request uclamp_se_set write_at write_id
set_request-IsFiled n s p id v w = record {
  request = λ q j. filed n s p q id j v w;
  default = w.default;
}

set_request-IsClamped :
    (n : ℕ) (ps : List ℕ) (s : Clamps) (p : ℕ) (id : UclampId) (v : ℕ)
    → IsClamped n ps s
    → IsClamped n ps (set_request n s p id v)
unfolding set_request
set_request-IsClamped n ps s p id v c = record {
  counted = λ j.
      let k = c.counted j in
      record {
        tasks = k.tasks;
        active = k.active;
        fits = k.fits;
        below = k.below;
        placed = k.placed;
        highest = k.highest;
      };
  idle = c.idle;
  set = set_request-IsFiled n s p id v c.set;
  once = c.once;
  quiet = c.quiet;
  used = c.used;
  enabled = c.enabled;
}

Run-IsClamped :
    {n : ℕ} {s0 : Clamps} {ps : List ℕ} {s : Clamps}
    → 0 < n
    → IsBooted n s0
    → Run n s0 ps s
    → IsClamped n ps s
Run-IsClamped {n} {s0} pos i at_boot = init_uclamp_rq-IsClamped n s0 i.set i.off i.quiet i.used
Run-IsClamped {n} pos i (inc {ps} {s} p r out able) =
    uclamp_rq_inc-IsClamped n ps s p pos out able (Run-IsClamped pos i r)
Run-IsClamped {n} pos i (dec {ps} {s} p r there) =
    uclamp_rq_dec-IsClamped n ps s p pos there (Run-IsClamped pos i r)
Run-IsClamped {n} pos i (ask {ps} {s} p id v r) =
    set_request-IsClamped n ps s p id v (Run-IsClamped pos i r)
Run-IsClamped {n} pos i (refresh {ps} {s} p id r there) =
    uclamp_rq_reinc_id-IsClamped n ps s p id pos there (Run-IsClamped pos i r)

clamp-IsHighest :
    (n : ℕ) (ps : List ℕ) (s : Clamps) (id : UclampId) (q : ℕ)
    → 0 < n
    → IsClamped n ps s
    → has q ps ≡ true
    → IsHighest n (s.rq id).bucket (s.rq id).value × (uclamp_eff_value s q id ≤ (s.rq id).value)
unfolding uclamp_eff_value
clamp-IsHighest n ps s id q pos c there =
    let k = c.counted id in
    let h = k.highest q there in
    let b = (s.se q id).bucket_id in
    let lt : b < n = omega (arith, k.fits q there, bucket_id-lt n (s.se q id).value pos) in
    let top =
      h.upper b lt (ground (arith, k.tasks b, member-counted (λ x. s.se x id) q ps there)) in
    (h, ground (arith, k.active q, there, top, k.below q there))

-- After any run from boot in which tasks are enqueued and dequeued, ask for new clamps and have them
-- refreshed, no SCHED_WARN_ON has fired, and while a task is runnable, each clamp of the run queue is
-- the greatest value of its buckets with tasks and not below the effective value of that task.
pub Run-IsHighest :
    {n : ℕ} {s0 : Clamps} {ps : List ℕ} {s : Clamps}
    → 0 < n
    → IsBooted n s0
    → Run n s0 ps s
    → (s.warned ≡ false)
      × ((id : UclampId) (q : ℕ)
          → has q ps ≡ true
          → IsHighest n (s.rq id).bucket (s.rq id).value
            × (uclamp_eff_value s q id ≤ (s.rq id).value))
Run-IsHighest {n} {s0} {ps} {s} pos i r =
    let c = Run-IsClamped pos i r in
    (c.quiet, λ id q there. clamp-IsHighest n ps s id q pos c there)
