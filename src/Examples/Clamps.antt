-- ===== src/Examples/Clamps.antt =====
-- The theorems on utilization clamping of kernel/sched/core.c with five buckets and three tasks.
use lottery_scheduler.Base.{ℕ, ◌≤◌, refl, true, false, [], ◌∷◌, arith, ◌==◌, if◌then◌else◌}
use lottery_scheduler.Uclamp.Values.{
  UclampId, uclamp_min, uclamp_max, UclampSe, UclampBucket, Clamps, uclamp_bucket_id,
  uclamp_bucket_delta, uclamp_eff_value,
}
use lottery_scheduler.Uclamp.Rq.{
  init_uclamp_rq, uclamp_rq_inc, uclamp_rq_dec, uclamp_rq_reinc_id, top_bucket,
}
use lottery_scheduler.Uclamp.Highest.{IsHighest, top_bucket-IsHighest}
use lottery_scheduler.Uclamp.Enqueued.{IsClamped, uclamp_rq_inc-IsClamped, init_uclamp_rq-IsClamped}
use lottery_scheduler.Uclamp.Dequeued.{uclamp_rq_dec-IsClamped}
use lottery_scheduler.Uclamp.Refreshed.{uclamp_rq_reinc_id-IsClamped}
use lottery_scheduler.Base.{has, ◌≡◌}
use lottery_scheduler.Uclamp.Promise.{
  Run, at_boot, inc, dec, ask, refresh, IsBooted, set_request, Run-IsHighest,
}

-- A request for `value`, which lies in bucket `b`.
abbrev a_request : (value b : ℕ) → UclampSe
a_request v b = record { value = v; bucket_id = b; active = false; user_defined = true }

-- Task 1 asks for 300, the others for 900.
abbrev boot : Clamps
boot = record {
  rq = λ id. record { value = 7; bucket = λ b. record { tasks = 2; value = 9 } };
  idle = false;
  se = λ q id. a_request 0 0;
  request = λ q id. if q == 1 then a_request 300 1 else a_request 900 4;
  default = λ id. a_request 1024 4;
  warned = false;
  used = true;
  enabled = λ q. true;
}

fresh-IsClamped : IsClamped 5 [] (init_uclamp_rq boot)
unfolding uclamp_bucket_id uclamp_bucket_delta
fresh-IsClamped =
    init_uclamp_rq-IsClamped 5 boot
      (record { request = λ q id. ground arith; default = λ id. refl }) (λ q id. refl) refl refl

one_task-IsClamped : IsClamped 5 (1 ∷ []) (uclamp_rq_inc (init_uclamp_rq boot) 1)
unfolding init_uclamp_rq
one_task-IsClamped =
    uclamp_rq_inc-IsClamped 5 [] (init_uclamp_rq boot) 1 (omega arith) refl refl fresh-IsClamped

abbrev two_tasks : Clamps
two_tasks = uclamp_rq_inc (uclamp_rq_inc (init_uclamp_rq boot) 1) 2

two_tasks-IsClamped : IsClamped 5 (2 ∷ 1 ∷ []) two_tasks
unfolding uclamp_rq_inc init_uclamp_rq
two_tasks-IsClamped =
    uclamp_rq_inc-IsClamped 5 (1 ∷ []) (uclamp_rq_inc (init_uclamp_rq boot) 1) 2 (omega arith) refl
      refl one_task-IsClamped

uclamp_rq_inc-IsClamped_example : IsClamped 5 (2 ∷ 1 ∷ []) two_tasks
unfolding uclamp_rq_inc init_uclamp_rq
uclamp_rq_inc-IsClamped_example =
    uclamp_rq_inc-IsClamped 5 (1 ∷ []) (uclamp_rq_inc (init_uclamp_rq boot) 1) 2 (omega arith) refl
      refl one_task-IsClamped

uclamp_rq_dec-IsClamped_example : IsClamped 5 (1 ∷ []) (uclamp_rq_dec 5 two_tasks 2)
uclamp_rq_dec-IsClamped_example =
    uclamp_rq_dec-IsClamped 5 (2 ∷ 1 ∷ []) two_tasks 2 (omega arith) refl two_tasks-IsClamped

-- Task 1 now asks for 1000.
abbrev new_request : Clamps
new_request = record two_tasks { request = λ q id. a_request 1000 4 }

new_request-IsClamped : IsClamped 5 (2 ∷ 1 ∷ []) new_request
unfolding uclamp_bucket_id uclamp_bucket_delta
new_request-IsClamped =
    let c = two_tasks-IsClamped in
    record {
      counted = λ id.
          let k = c.counted id in
          record {
            tasks = k.tasks;
            active = k.active;
            fits = k.fits;
            below = k.below;
            placed = k.placed;
            highest = k.highest;
          };
      idle = c.idle;
      set = record { request = λ q id. refl; default = c.set.default };
      once = c.once;
      quiet = c.quiet;
      used = c.used;
      enabled = c.enabled;
    }

uclamp_rq_reinc_id-IsClamped_example :
    IsClamped 5 (1 ∷ 2 ∷ []) (uclamp_rq_reinc_id 5 new_request 1 uclamp_max)
uclamp_rq_reinc_id-IsClamped_example =
    uclamp_rq_reinc_id-IsClamped 5 (2 ∷ 1 ∷ []) new_request 1 uclamp_max (omega arith) refl
      new_request-IsClamped

-- Tasks 1 and 2 come, task 1 asks for 1000 and is refreshed, task 2 goes.
abbrev asked : Clamps
asked = set_request 5 two_tasks 1 uclamp_min 1000

abbrev last : Clamps
last = uclamp_rq_dec 5 (uclamp_rq_reinc_id 5 asked 1 uclamp_min) 2

some_run : Run 5 boot (1 ∷ []) last
unfolding init_uclamp_rq uclamp_rq_inc
some_run =
    dec 2
      (refresh 1 uclamp_min (ask 1 uclamp_min 1000 (inc 2 (inc 1 at_boot refl refl) refl refl))
        refl)
      refl

boot-IsBooted : IsBooted 5 boot
unfolding uclamp_bucket_id uclamp_bucket_delta
boot-IsBooted = record {
  set = record { request = λ q id. ground arith; default = λ id. refl };
  off = λ q id. refl;
  quiet = refl;
  used = refl;
}

Run-IsHighest_example :
    (last.warned ≡ false)
    × ((id : UclampId) (q : ℕ)
        → has q (1 ∷ []) ≡ true
        → IsHighest 5 (last.rq id).bucket (last.rq id).value
          × (uclamp_eff_value last q id ≤ (last.rq id).value))
Run-IsHighest_example = Run-IsHighest (omega arith) boot-IsBooted some_run

-- Buckets 1 and 4 are in use.
abbrev some_buckets : ℕ → UclampBucket
some_buckets b =
    if b == 1
    then record { tasks = 2; value = 300 }
    else if b == 4
    then record { tasks = 1; value = 900 }
    else record { tasks = 0; value = 0 }

top_bucket-IsHighest_example : IsHighest 5 some_buckets 900
unfolding top_bucket uclamp_bucket_id uclamp_bucket_delta
top_bucket-IsHighest_example =
    top_bucket-IsHighest 5 5 some_buckets 900 (λ b lt used. ground (arith, used)) refl
