-- ===== src/Core/Setscheduler/Change.antt =====
-- The part of `__sched_setscheduler` of kernel/sched/core.c under the run queue's lock, with
-- `__setscheduler_params`.
use Prim.Native.Nat.{bit_or}
use lottery_scheduler.Base.{
  ℕ, Bool, true, false, Option, none, some, ◌&&◌, ◌||◌, not, ◌==◌, if◌then◌else◌, ℤ, eqb_ℤ, ltb_ℤ,
}
use lottery_scheduler.Task.{fair_policy, rt_policy, dl_policy, test_bits, task_on_rq_queued, write}
use lottery_scheduler.Machine.{Kernel, Attr, Errno, einval, ebusy, State, put_task, with_ext}
use lottery_scheduler.Core.Queue.{enqueue_task, dequeue_task, check_class_changed}
use lottery_scheduler.Core.Pick.{put_prev_task, set_next_task}
use lottery_scheduler.Core.Prio.{
  priority_of, normal_prio, rt_effective_prio, setscheduler_prio, task_nice,
}
use lottery_scheduler.Core.Load.{set_load_weight}
use lottery_scheduler.Core.Setscheduler.Request.{keep_params_flag, util_clamp_flag, setparam_policy}

module _ {K : Kernel} where
  -- The same request would change nothing.
  unfoldable pub changes_nothing : State K → (p policy : ℕ) → Attr → Bool
  changes_nothing s p policy attr =
      let t = s.tasks p in
      policy == t.policy
      && not (
          fair_policy policy && not (eqb_ℤ attr.nice (task_nice s p))
          || rt_policy policy && not (attr.priority == t.rt_priority)
          || dl_policy policy && K.dl_param_changed p attr s.ext
          || test_bits attr.flags util_clamp_flag)

  -- `__setscheduler_params` up to the weight.
  unfoldable pub write_params : State K → (p : ℕ) → Attr → State K
  unfolding put_task write normal_prio
  write_params s p attr =
      let t = s.tasks p in
      let policy = if attr.policy == setparam_policy then t.policy else attr.policy in
      let t' = record t {
        policy = policy;
        static_prio =
            if not (dl_policy policy) && fair_policy policy
            then K.nice_to_prio attr.nice
            else t.static_prio;
        rt_priority = attr.priority;
      } in
      let t'' = record t' { normal_prio = normal_prio K t' } in
      let e = if dl_policy policy then K.setparam_dl p attr s.ext else s.ext in
      with_ext (put_task s p t'') e

  unfoldable pub setscheduler_params : State K → (p : ℕ) → Attr → State K
  setscheduler_params s p attr = set_load_weight (write_params s p attr) p true

  -- `p->sched_reset_on_fork = …`
  unfoldable pub set_reset_on_fork : State K → (p : ℕ) → Bool → State K
  unfolding put_task write
  set_reset_on_fork s p b = put_task s p (record (s.tasks p) { sched_reset_on_fork = b })

  -- Parameters, class and priority, unless the caller keeps them.
  unfoldable pub set_params : State K → (p : ℕ) → Attr → ℤ → State K
  unfolding setscheduler_params setscheduler_prio
  set_params s p attr newprio =
      if test_bits attr.flags keep_params_flag
      then s
      else setscheduler_prio (setscheduler_params s p attr) p newprio

  -- The task leaves its queue and the CPU, is changed, and takes its place again.
  unfoldable pub requeue : State K → (p flags : ℕ) → Attr → (newprio : ℤ) → State K
  unfolding set_params
  requeue s p flags attr newprio =
      let t = s.tasks p in
      let queued = t.on_rq == task_on_rq_queued in
      let running = p == s.rq.curr in
      let out = if queued then dequeue_task s p flags else s in
      let put = if running then put_prev_task out p else out in
      let changed = set_params put p attr newprio in
      let flags' = if ltb_ℤ t.prio (changed.tasks p).prio then bit_or flags 0x10 else flags in
      let back = if queued then enqueue_task changed p flags' else changed in
      let next = if running then set_next_task back p else back in
      check_class_changed next p t.sched_class t.prio

  unfoldable pub change_scheduler :
      State K → (p policy : ℕ) → Attr → (reset_on_fork pi : Bool) → State K
  unfolding requeue set_reset_on_fork
  change_scheduler s p policy attr reset_on_fork pi =
      let s' = set_reset_on_fork s p reset_on_fork in
      let normal = priority_of K policy attr.priority attr.nice in
      let newprio = if pi then rt_effective_prio s' p normal else normal in
      let flags = if pi && eqb_ℤ newprio (s.tasks p).prio then 0x0a else 0x0e in
      requeue s' p flags attr newprio

  -- `p == rq->stop`
  unfoldable pub is_stop : State K → ℕ → Bool
  is_stop s p = elim s.rq.stop [ none ↦ false | some q ↦ p == q ]

  -- The part under the run queue's lock.
  unfoldable pub setscheduler_locked :
      State K → (p policy : ℕ) → Attr → (reset_on_fork pi : Bool) → Option Errno × State K
  unfolding is_stop changes_nothing change_scheduler set_reset_on_fork
  setscheduler_locked s p policy attr reset_on_fork pi =
      if is_stop s p
      then (some einval, s)
      else if changes_nothing s p policy attr
      then (none, set_reset_on_fork s p reset_on_fork)
      else if dl_policy policy || K.dl_prio (s.tasks p).prio
      then (let (overflow, e) = K.sched_dl_overflow p policy attr s.ext in
          if overflow
          then (some ebusy, with_ext s e)
          else (none, change_scheduler (with_ext s e) p policy attr reset_on_fork pi))
      else (none, change_scheduler s p policy attr reset_on_fork pi)
