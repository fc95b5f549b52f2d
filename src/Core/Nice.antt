-- ===== src/Core/Nice.antt =====
-- `set_user_nice` of kernel/sched/core.c.
use lottery_scheduler.Base.{ℕ, true, ◌||◌, ◌==◌, if◌then◌else◌, ℤ, eqb_ℤ, ltb_ℤ}
use lottery_scheduler.Task.{dl_policy, rt_policy, task_on_rq_queued, write}
use lottery_scheduler.Machine.{Kernel, State, put_task}
use lottery_scheduler.Core.Clock.{update_rq_clock}
use lottery_scheduler.Core.Hooks.{class_prio_changed}
use lottery_scheduler.Core.Queue.{enqueue_task, dequeue_task}
use lottery_scheduler.Core.Pick.{put_prev_task, set_next_task}
use lottery_scheduler.Core.Load.{set_load_weight}
use lottery_scheduler.Core.Prio.{effective_prio, task_nice}

module _ {K : Kernel} where
  -- `p->static_prio = NICE_TO_PRIO(nice)`
  unfoldable pub set_static_prio : State K → (p : ℕ) → ℤ → State K
  unfolding put_task write
  set_static_prio s p nice = put_task s p (record (s.tasks p) { static_prio = K.nice_to_prio nice })

  -- The nice level, the load weight and the effective priority.
  unfoldable pub set_nice : State K → (p : ℕ) → ℤ → State K
  unfolding set_static_prio put_task write effective_prio
  set_nice s p nice =
      let u = set_static_prio s p nice in
      let w = set_load_weight u p true in
      let (prio, t) = effective_prio K (w.tasks p) in put_task w p (record t { prio = prio })

  -- The task leaves its queue and the CPU for the change, and takes its place again.
  unfoldable pub renice : State K → (p : ℕ) → ℤ → State K
  unfolding set_nice
  renice s p nice =
      let queued = (s.tasks p).on_rq == task_on_rq_queued in
      let running = p == s.rq.curr in
      let out = if queued then dequeue_task s p 0x0a else s in
      let put = if running then put_prev_task out p else out in
      let changed = set_nice put p nice in
      let back = if queued then enqueue_task changed p 0x0a else changed in
      let next = if running then set_next_task back p else back in
      class_prio_changed next (next.tasks p).sched_class p

  unfoldable pub set_user_nice : State K → (p : ℕ) → ℤ → State K
  unfolding set_static_prio renice
  set_user_nice s p nice =
      if eqb_ℤ (task_nice s p) nice || (ltb_ℤ nice K.min_nice || ltb_ℤ K.max_nice nice)
      then s
      else let ticked = update_rq_clock s in
        if dl_policy (ticked.tasks p).policy || rt_policy (ticked.tasks p).policy
        then set_static_prio ticked p nice
        else renice ticked p nice
