-- ===== src/Core/Prio.antt =====
-- Priorities of kernel/sched/core.c: `__normal_prio`, `normal_prio`, `effective_prio`,
-- `__rt_effective_prio`, `rt_effective_prio`, `__setscheduler_prio`, and the system calls
-- `sched_get_priority_max` and `sched_get_priority_min`.
use lottery_scheduler.Base.{
  ℕ, ◌-◌, Bool, Option, none, some, ◌||◌, if◌then◌else◌, ℤ, pos, ◌-ℤ◌, ltb_ℤ, leb_ℤ,
}
use lottery_scheduler.Task.{
  Task, SchedClass, fair, rt, dl, lottery, dl_policy, rt_policy, fair_policy, idle_policy,
  ltr_policy, write,
}
use lottery_scheduler.Machine.{Kernel, State, put_task}

module _ (K : Kernel) where
  unfoldable pub priority_of : (policy rt_prio : ℕ) (nice : ℤ) → ℤ
  priority_of policy rt_prio nice =
      if dl_policy policy
      then K.max_dl_prio -ℤ pos 1
      else if rt_policy policy
      then pos K.max_rt_prio -ℤ pos 1 -ℤ pos rt_prio
      else K.nice_to_prio nice

  unfoldable pub normal_prio : Task → ℤ
  unfolding priority_of
  normal_prio t = priority_of t.policy t.rt_priority (K.prio_to_nice t.static_prio)

  -- The new `normal_prio` is written; the result is the current priority.
  unfoldable pub effective_prio : Task → ℤ × Task
  unfolding normal_prio
  effective_prio t =
      let n = normal_prio t in
      (if K.rt_prio t.prio then t.prio else n, record t { normal_prio = n })

  -- `sched_get_priority_max(policy)` and `sched_get_priority_min(policy)`; `none` is -EINVAL.
  unfoldable pub sched_get_priority_max : ℕ → Option ℕ
  sched_get_priority_max policy =
      if rt_policy policy
      then some (K.max_rt_prio - 1)
      else if ltr_policy policy || dl_policy policy || fair_policy policy || idle_policy policy
      then some 0
      else none

  unfoldable pub sched_get_priority_min : ℕ → Option ℕ
  sched_get_priority_min policy =
      if rt_policy policy
      then some 1
      else if ltr_policy policy || dl_policy policy || fair_policy policy || idle_policy policy
      then some 0
      else none

  -- The class that `__setscheduler_prio` chooses.
  unfoldable pub class_of : (policy : ℕ) (prio : ℤ) → SchedClass
  class_of policy prio =
      if ltr_policy policy
      then lottery
      else if K.dl_prio prio
      then dl
      else if K.rt_prio prio
      then rt
      else fair

module _ {K : Kernel} where
  -- `__rt_effective_prio`: `min(prio, pi_task->prio)` where there is a task that boosts.
  unfoldable pub rt_effective_prio_of : State K → Option ℕ → ℤ → ℤ
  rt_effective_prio_of s none prio = prio
  rt_effective_prio_of s (some q) prio =
      if ltb_ℤ (s.tasks q).prio prio then (s.tasks q).prio else prio

  unfoldable pub rt_effective_prio : State K → (p : ℕ) → ℤ → ℤ
  unfolding rt_effective_prio_of
  rt_effective_prio s p prio = rt_effective_prio_of s (K.rt_mutex_get_top_task p s.ext) prio

  -- `__setscheduler_prio(p, prio)`
  unfoldable pub setscheduler_prio : State K → (p : ℕ) → ℤ → State K
  unfolding class_of put_task write
  setscheduler_prio s p prio =
      put_task s p
        (record (s.tasks p) { sched_class = class_of K (s.tasks p).policy prio; prio = prio })

  unfoldable pub can_nice : State K → (p : ℕ) → (nice : ℤ) → Bool
  can_nice s p nice =
      leb_ℤ (K.nice_to_rlimit nice) (pos (K.rlimit_nice p s.ext)) || K.capable_nice s.ext

  unfoldable pub task_nice : State K → (p : ℕ) → ℤ
  task_nice s p = K.prio_to_nice (s.tasks p).static_prio
