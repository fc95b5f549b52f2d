-- ===== src/Core/Boost.antt =====
-- `rt_mutex_setprio` of kernel/sched/core.c, with `dl_entity_preempt` of kernel/sched/sched.h.
use Prim.Native.Nat.{bit_or}
use lottery_scheduler.Base.{
  ℕ, Bool, true, false, Option, none, some, ◌&&◌, ◌||◌, not, ◌==◌, if◌then◌else◌, ℤ, eqb_ℤ, ltb_ℤ,
}
use lottery_scheduler.Task.{task_on_rq_queued, test_bits, write}
use lottery_scheduler.Machine.{Kernel, State, put_task}
use lottery_scheduler.Core.Clock.{update_rq_clock}
use lottery_scheduler.Core.Queue.{enqueue_task, dequeue_task, check_class_changed}
use lottery_scheduler.Core.Pick.{put_prev_task, set_next_task}
use lottery_scheduler.Core.Prio.{rt_effective_prio_of, setscheduler_prio}
use lottery_scheduler.Core.Setscheduler.Request.{sugov_flag}

abbrev enqueue_head : ℕ
enqueue_head = 0x10

abbrev enqueue_replenish : ℕ
enqueue_replenish = 0x20

abbrev pub same_task : Option ℕ → Option ℕ → Bool
same_task none none = true
same_task none (some q) = false
same_task (some p) none = false
same_task (some p) (some q) = p == q

module _ {K : Kernel} where
  -- Entity of `a` before entity of `b`.
  unfoldable pub dl_entity_preempt : State K → (a b : ℕ) → Bool
  dl_entity_preempt s a b =
      test_bits (s.tasks a).dl.flags sugov_flag
      || K.dl_time_before (s.tasks a).dl.deadline (s.tasks b).dl.deadline

  -- `p->dl.pi_se = &q->dl`, for the entity that `q` gives.
  unfoldable pub set_pi_se : State K → (p : ℕ) → ℕ → State K
  unfolding put_task write
  set_pi_se s p q =
      let t = s.tasks p in put_task s p (record t { dl = record (t.dl) { pi_se = q } })

  unfoldable pub clear_rt_timeout : State K → (p : ℕ) → State K
  unfolding put_task write
  clear_rt_timeout s p =
      let t = s.tasks p in put_task s p (record t { rt = record (t.rt) { timeout = 0 } })

  -- A deadline task is boosted by `q` if it is no deadline task itself, or `q` comes first.
  unfoldable pub boosts : State K → (p q : ℕ) → Bool
  unfolding dl_entity_preempt
  boosts s p q =
      not (K.dl_prio (s.tasks p).normal_prio)
      || K.dl_prio (s.tasks q).prio && dl_entity_preempt s q p

  -- The parameters of the boost, by the new priority; with the flags for `enqueue_task`. Without a
  -- task that boosts, the priority is a deadline task's only if the normal one is.
  unfoldable pub boost_params :
      State K → (p : ℕ) → Option ℕ → (oldprio prio : ℤ) → (flags : ℕ) → ℕ × State K
  unfolding boosts set_pi_se clear_rt_timeout
  boost_params s p pi_task oldprio prio flags =
      let unboosted = if K.dl_prio oldprio then set_pi_se s p p else s in
      if K.dl_prio prio
      then elim pi_task as (λ _. ℕ × State K) [
        | none ↦ (flags, set_pi_se s p p)
        | some q ↦
            if boosts s p q
            then (bit_or flags enqueue_replenish, set_pi_se s p (s.tasks q).dl.pi_se)
            else (flags, set_pi_se s p p)
      ]
      else if K.rt_prio prio
      then (if ltb_ℤ oldprio prio then bit_or flags enqueue_head else flags, unboosted)
      else (flags, if K.rt_prio oldprio then clear_rt_timeout unboosted p else unboosted)

  unfoldable pub boosted : State K → (p : ℕ) → Option ℕ → (oldprio prio : ℤ) → (flags : ℕ) → State K
  unfolding boost_params setscheduler_prio
  boosted s p pi_task oldprio prio flags =
      setscheduler_prio (boost_params s p pi_task oldprio prio flags).1 p prio

  -- The task leaves its queue and the CPU, gets the priority, and takes its place again.
  unfoldable pub boost_requeue : State K → (p : ℕ) → Option ℕ → (prio : ℤ) → State K
  unfolding boosted
  boost_requeue s p pi_task prio =
      let t = s.tasks p in
      let flags = if eqb_ℤ t.prio prio then 0x0a else 0x0e in
      let queued = t.on_rq == task_on_rq_queued in
      let running = p == s.rq.curr in
      let out = if queued then dequeue_task s p flags else s in
      let put = if running then put_prev_task out p else out in
      let flags' = (boost_params put p pi_task t.prio prio flags).0 in
      let changed = boosted put p pi_task t.prio prio flags in
      let back = if queued then enqueue_task changed p flags' else changed in
      let next = if running then set_next_task back p else back in
      check_class_changed next p t.sched_class t.prio

  -- `p->pi_top_task = pi_task`
  unfoldable pub set_pi_top_task : State K → (p : ℕ) → Option ℕ → State K
  unfolding put_task write
  set_pi_top_task s p pi_task = put_task s p (record (s.tasks p) { pi_top_task = pi_task })

  unfoldable pub rt_mutex_setprio : State K → (p : ℕ) → Option ℕ → State K
  unfolding boost_requeue set_pi_top_task rt_effective_prio_of
  rt_mutex_setprio s p pi_task =
      let prio = rt_effective_prio_of s pi_task (s.tasks p).normal_prio in
      let settled = eqb_ℤ prio (s.tasks p).prio && not (K.dl_prio prio) in
      if same_task (s.tasks p).pi_top_task pi_task && settled
      then s
      else let s' = set_pi_top_task (update_rq_clock s) p pi_task in
        if settled then s' else if p == s'.rq.idle then s' else boost_requeue s' p pi_task prio
