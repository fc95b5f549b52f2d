-- ===== src/Core/Hooks.antt =====
-- Calls through `p->sched_class`: a hook of the lottery class is the function of
-- kernel/sched/lottery.c that `DEFINE_SCHED_CLASS(lottery)` enters, a hook of any other class is
-- outside code.
use lottery_scheduler.Base.{ℕ, Bool, Option, none, some, if◌then◌else◌}
use lottery_scheduler.Task.{SchedClass, lottery, class_eq}
use lottery_scheduler.Machine.{Kernel, State, put_task, with_ext}
use lottery_scheduler.Core.Resched.{resched_curr_if}
use lottery_scheduler.Lottery.Hooks.{
  enqueue_task_lottery, dequeue_task_lottery, pick_next_task_lottery, task_tick_lottery,
  switched_from_lottery,
}

abbrev pub is_lottery : SchedClass → Bool
is_lottery c = class_eq c lottery

module _ {K : Kernel} where
  -- The outside state after a hook, and the reschedule that the hook asks for.
  unfoldable pub after_hook : State K → Bool × K.Ext → State K
  unfolding resched_curr_if
  after_hook s (b, e) = resched_curr_if b (with_ext s e)

  unfoldable pub class_enqueue_task : State K → SchedClass → (p flags : ℕ) → State K
  class_enqueue_task s c p flags =
      if is_lottery c
      then enqueue_task_lottery s p flags
      else with_ext s ((K.ops c).enqueue_task s.tasks p flags s.ext)

  unfoldable pub class_dequeue_task : State K → SchedClass → (p flags : ℕ) → State K
  class_dequeue_task s c p flags =
      if is_lottery c
      then dequeue_task_lottery s p flags
      else with_ext s ((K.ops c).dequeue_task s.tasks p flags s.ext)

  -- `check_preempt_curr_lottery` is empty.
  unfoldable pub class_check_preempt_curr : State K → SchedClass → (p flags : ℕ) → State K
  unfolding after_hook
  class_check_preempt_curr s c p flags =
      if is_lottery c then s else after_hook s ((K.ops c).check_preempt_curr s.tasks p flags s.ext)

  unfoldable pub class_pick_next_task : State K → SchedClass → Option ℕ × State K
  class_pick_next_task s c =
      if is_lottery c
      then pick_next_task_lottery s
      else let (o, e) = (K.ops c).pick_next_task s.tasks s.ext in (o, with_ext s e)

  -- `put_prev_task_lottery` is empty.
  unfoldable pub class_put_prev_task : State K → SchedClass → (p : ℕ) → State K
  class_put_prev_task s c p =
      if is_lottery c then s else with_ext s ((K.ops c).put_prev_task s.tasks p s.ext)

  -- `set_next_task_lottery` is empty.
  unfoldable pub class_set_next_task : State K → SchedClass → (p : ℕ) → Bool → State K
  class_set_next_task s c p first =
      if is_lottery c then s else with_ext s ((K.ops c).set_next_task s.tasks p first s.ext)

  unfoldable pub class_task_tick : State K → SchedClass → (p : ℕ) → State K
  unfolding after_hook
  class_task_tick s c p =
      if is_lottery c
      then task_tick_lottery s p
      else after_hook s ((K.ops c).task_tick s.tasks p s.ext)

  -- A class without the hook is skipped.
  unfoldable pub class_switched_from : State K → SchedClass → (p : ℕ) → State K
  unfolding after_hook
  class_switched_from s c p =
      if is_lottery c then switched_from_lottery s p else elim (K.ops c).switched_from [
        | none ↦ s
        | some hook ↦ after_hook s (hook s.tasks p s.ext)
      ]

  -- `switched_to_lottery` is empty.
  unfoldable pub class_switched_to : State K → SchedClass → (p : ℕ) → State K
  unfolding after_hook
  class_switched_to s c p =
      if is_lottery c then s else after_hook s ((K.ops c).switched_to s.tasks p s.ext)

  -- `prio_changed_lottery` is empty.
  unfoldable pub class_prio_changed : State K → SchedClass → (p : ℕ) → State K
  unfolding after_hook
  class_prio_changed s c p =
      if is_lottery c then s else after_hook s ((K.ops c).prio_changed s.tasks p s.ext)

  -- The account of the running task and its new `se.sum_exec_runtime`. The lottery class leaves the
  -- hook out, and `none` is the call of a NULL pointer.
  unfoldable pub class_update_curr : State K → SchedClass → (p : ℕ) → Option (ℕ × State K)
  unfolding put_task
  class_update_curr s c p =
      if is_lottery c
      then none
      else let (ns, e) = (K.ops c).update_curr s.tasks p s.ext in
        let t = s.tasks p in
        some (
          ns,
          with_ext (put_task s p (record t { se = record (t.se) { sum_exec_runtime = ns } })) e,
        )

  -- The lottery class leaves the hook out, and the time slice is 0.
  unfoldable pub class_get_rr_interval : State K → SchedClass → (p : ℕ) → ℕ
  class_get_rr_interval s c p =
      if is_lottery c
      then 0
      else elim (K.ops c).get_rr_interval [ none ↦ 0 | some hook ↦ hook s.tasks p s.ext ]
