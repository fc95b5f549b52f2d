-- ===== src/Core/Clock.antt =====
-- `update_rq_clock` and `update_rq_clock_task` of kernel/sched/core.c.
use lottery_scheduler.Base.{ℕ, ◌≡◌, arith, if◌then◌else◌, add64, sub64, negative64}
use lottery_scheduler.Task.{test_bits}
use lottery_scheduler.Machine.{Kernel, State, SameCounts}

abbrev pub rqcf_req_skip : ℕ
rqcf_req_skip = 0x01

abbrev pub rqcf_act_skip : ℕ
rqcf_act_skip = 0x02

module _ {K : Kernel} where
  unfoldable pub update_rq_clock_task : State K → (delta : ℕ) → State K
  update_rq_clock_task s delta = record s {
    rq = record (s.rq) { clock_task = add64 s.rq.clock_task delta };
    ext = K.update_rq_clock_pelt delta s.ext;
  }

  unfoldable pub advance_clock : State K → (delta : ℕ) → State K
  unfolding update_rq_clock_task
  advance_clock s delta =
      if negative64 delta
      then s
      else update_rq_clock_task (record s { rq = record (s.rq) { clock = add64 s.rq.clock delta } })
          delta

  unfoldable pub update_rq_clock : State K → State K
  unfolding advance_clock
  update_rq_clock s =
      if test_bits s.rq.clock_update_flags rqcf_act_skip
      then s
      else advance_clock s (sub64 (K.sched_clock s.ext) s.rq.clock)

  -- The two states differ at most in clocks and in outside state that does not count tasks.
  pub record SameQueue (s t : State K) : Type 0 where
    pub ltr : t.rq.ltr ≡ s.rq.ltr
    pub links : t.links ≡ s.links
    pub tasks : t.tasks ≡ s.tasks
    pub log : t.log ≡ s.log
    pub curr : t.rq.curr ≡ s.rq.curr
    pub idle : t.rq.idle ≡ s.rq.idle
    pub flag : t.preempt_need_resched ≡ s.preempt_need_resched
    pub counts : SameCounts K.nr_running K.h_nr_running s.ext t.ext

  pub SameQueue-refl : (s : State K) → SameQueue s s
  SameQueue-refl s = ground arith

  pub SameQueue-trans : {s t u : State K} → SameQueue s t → SameQueue t u → SameQueue s u
  SameQueue-trans h k = ground arith

  pub SameQueue-ext :
      (s : State K) (e : K.Ext)
      → SameCounts K.nr_running K.h_nr_running s.ext e
      → SameQueue s (record s { ext = e })
  SameQueue-ext s e h = ground arith

  pub update_rq_clock-SameQueue : (s : State K) → SameQueue s (update_rq_clock s)
  unfolding update_rq_clock
  update_rq_clock-SameQueue s =
      ground (arith, K.pelt-counts (sub64 (K.sched_clock s.ext) s.rq.clock) s.ext)
