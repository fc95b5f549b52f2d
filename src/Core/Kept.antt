-- ===== src/Core/Kept.antt =====
-- `Stays` for wakeups, a new nice level and a boost of kernel/sched/core.c.
use lottery_scheduler.Base.{
  ℕ, refl, Option, arith, ◌==◌, ◌||◌, ◌&&◌, not, if◌then◌else◌, Bool-cases, inl, inr, ℤ, ltb_ℤ,
  eqb_ℤ,
}
use lottery_scheduler.Task.{dl_policy, rt_policy, task_on_rq_queued, task_running, test_bits, write}
use lottery_scheduler.Machine.{Kernel, State, put_task}
use lottery_scheduler.Core.Clock.{update_rq_clock}
use lottery_scheduler.Core.Queue.{dequeue_task}
use lottery_scheduler.Core.Wakeup.{
  ttwu_do_activate, ttwu_runnable, ttwu_queue, ttwu_queue_unless, try_to_wake_up, wake_up_new_task,
}
use lottery_scheduler.Core.Nice.{renice, set_user_nice}
use lottery_scheduler.Core.Prio.{setscheduler_prio, rt_effective_prio_of, task_nice}
use lottery_scheduler.Core.Boost.{
  boost_params, boosted, boost_requeue, rt_mutex_setprio, set_pi_top_task, same_task,
}
use lottery_scheduler.Core.Frame.{
  Frame-trans, Frame-ext, Frame-update_rq_clock, Frame-check_preempt_curr,
}
use lottery_scheduler.Core.Blocking.{
  Frame-set_state, Frame-count_uninterruptible, Frame-count_iowait,
}
use lottery_scheduler.Core.Wakes.{Frame-ttwu_do_wakeup}
use lottery_scheduler.Core.Requeue.{
  Frame-set_static_prio, Frame-changed_nice, Frame-resumed, changed_nice,
}
use lottery_scheduler.Core.Boosted.{Frame-set_pi_top_task, Frame-boost_params}
use lottery_scheduler.Core.Stays.{
  Stays, Stays-refl, Stays-trans, Stays-if, Frame-Stays, enqueue_task-Stays, dequeue_task-Stays,
  activate_task-Stays, requeue_around-Stays,
}

module _ {K : Kernel} where
  ttwu_queue-Stays : (s : State K) (p flags : ℕ) → Stays s (ttwu_queue s p flags)
  unfolding ttwu_queue ttwu_do_activate
  ttwu_queue-Stays s p flags =
      let u = update_rq_clock s in
      let t = u.tasks p in
      Stays-trans
        (Frame-Stays (
          Frame-trans (Frame-update_rq_clock s) (
            Frame-trans (Frame-count_uninterruptible t.sched_contributes_to_load _ u)
              (Frame-count_iowait t.in_iowait _ _))))
        (Stays-trans (activate_task-Stays _ p _) (Frame-Stays (Frame-ttwu_do_wakeup _ p flags)))

  ttwu_on_rq-Stays :
      (s : State K) (p flags : ℕ) → Stays s (ttwu_queue_unless (ttwu_runnable s p flags) p flags)
  unfolding ttwu_queue_unless ttwu_runnable
  ttwu_on_rq-Stays s p flags = elim (Bool-cases ((s.tasks p).on_rq == task_on_rq_queued)) [
    | inl on ↦
        rw on (Frame-Stays (Frame-trans (Frame-update_rq_clock s) (Frame-ttwu_do_wakeup _ p flags)))
    | inr off ↦ rw off (ttwu_queue-Stays s p flags)
  ]

  pub try_to_wake_up-Stays :
      (s : State K) (p state flags : ℕ) → Stays s (try_to_wake_up s p state flags).1
  unfolding try_to_wake_up
  try_to_wake_up-Stays s p state flags = elim (Bool-cases (test_bits (s.tasks p).state state)) [
    | inr mismatch ↦ rw mismatch (Stays-refl s)
    | inl match ↦ elim (Bool-cases (p == s.rq.curr)) [
      | inl current ↦ rw (match, current) (Frame-Stays (Frame-set_state s p task_running))
      | inr other ↦ elim (Bool-cases ((s.tasks p).on_rq == 0)) [
        | inl off ↦ rw (match, other, off) (ttwu_queue-Stays s p flags)
        | inr on ↦ rw (match, other, on) (ttwu_on_rq-Stays s p flags)
      ]
    ]
  ]

  pub wake_up_new_task-Stays : (s : State K) (p : ℕ) → Stays s (wake_up_new_task s p)
  unfolding wake_up_new_task
  wake_up_new_task-Stays s p =
      let f =
        Frame-trans (Frame-trans (Frame-set_state s p task_running) (Frame-update_rq_clock _))
          (Frame-ext _ _) in
      Stays-trans (Frame-Stays f)
        (Stays-trans (activate_task-Stays _ p _) (Frame-Stays (Frame-check_preempt_curr _ p _)))

  renice-Stays : (s : State K) (p : ℕ) (nice : ℤ) → Stays s (renice s p nice)
  unfolding renice
  renice-Stays s p nice =
      let queued = (s.tasks p).on_rq == task_on_rq_queued in
      let running = p == s.rq.curr in
      let out = if queued then dequeue_task s p 0x0a else s in
      let changed = changed_nice out p nice running in
      Stays-trans (Stays-if queued (dequeue_task-Stays s p 0x0a) (Stays-refl s)) (
        Stays-trans (Frame-Stays (Frame-changed_nice out p nice running)) (
          Stays-trans (Stays-if queued (enqueue_task-Stays changed p 0x0a) (Stays-refl changed))
            (Frame-Stays (Frame-resumed _ p running))))

  pub set_user_nice-Stays : (s : State K) (p : ℕ) (nice : ℤ) → Stays s (set_user_nice s p nice)
  unfolding set_user_nice
  set_user_nice-Stays s p nice =
      let f = Frame-update_rq_clock s in
      let t = (update_rq_clock s).tasks p in
      Stays-if (eqb_ℤ (task_nice s p) nice || (ltb_ℤ nice K.min_nice || ltb_ℤ K.max_nice nice))
        (Stays-refl s)
        (Stays-if (dl_policy t.policy || rt_policy t.policy)
          (Frame-Stays (Frame-trans f (Frame-set_static_prio (update_rq_clock s) p nice)))
          (Stays-trans (Frame-Stays f) (renice-Stays (update_rq_clock s) p nice)))

  pub setscheduler_prio-Stays :
      (s : State K) (p : ℕ) (prio : ℤ) → Stays s (setscheduler_prio s p prio)
  unfolding setscheduler_prio put_task write
  setscheduler_prio-Stays s p prio = record {
    curr = refl;
    idle = refl;
    queued = λ q h. ground arith;
  }

  boost_requeue-Stays :
      (s : State K) (p : ℕ) (o : Option ℕ) (prio : ℤ) → Stays s (boost_requeue s p o prio)
  unfolding boost_requeue boosted
  boost_requeue-Stays s p o prio =
      let t = s.tasks p in
      let flags : ℕ = if eqb_ℤ t.prio prio then 0x0a else 0x0e in
      requeue_around-Stays s p flags (λ u. (boost_params u p o t.prio prio flags).0)
        (λ u. boosted u p o t.prio prio flags)
        (λ u.
          Stays-trans (Frame-Stays (Frame-boost_params u p o t.prio prio flags))
            (setscheduler_prio-Stays _ p prio))

  pub rt_mutex_setprio-Stays :
      (s : State K) (p : ℕ) (o : Option ℕ) → Stays s (rt_mutex_setprio s p o)
  unfolding rt_mutex_setprio
  rt_mutex_setprio-Stays s p o =
      let prio = rt_effective_prio_of s o (s.tasks p).normal_prio in
      let settled = eqb_ℤ prio (s.tasks p).prio && not (K.dl_prio prio) in
      let s' = set_pi_top_task (update_rq_clock s) p o in
      let f =
        Frame-Stays
          (Frame-trans (Frame-update_rq_clock s) (Frame-set_pi_top_task (update_rq_clock s) p o)) in
      Stays-if (same_task (s.tasks p).pi_top_task o && settled) (Stays-refl s) (
        Stays-if settled f
          (Stays-if (p == s'.rq.idle) f (Stays-trans f (boost_requeue-Stays s' p o prio))))
