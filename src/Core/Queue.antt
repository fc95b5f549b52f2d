-- ===== src/Core/Queue.antt =====
-- `enqueue_task`, `dequeue_task`, `activate_task`, `deactivate_task`, `check_class_changed` and
-- `check_preempt_curr` of kernel/sched/core.c.
use Prim.Native.Nat.{bit_or}
use lottery_scheduler.Base.{ℕ, ◌&&◌, ◌||◌, not, ltb, ◌==◌, if◌then◌else◌, ℤ, eqb_ℤ}
use lottery_scheduler.Task.{
  SchedClass, class_eq, address, test_bits, dequeue_sleep, dequeue_save, enqueue_wakeup,
  enqueue_restore, enqueue_noclock, task_on_rq_queued, task_on_rq_migrating, write,
}
use lottery_scheduler.Machine.{Kernel, State, put_task, with_ext}
use lottery_scheduler.Core.Resched.{resched_curr}
use lottery_scheduler.Core.Clock.{update_rq_clock, rqcf_req_skip}
use lottery_scheduler.Core.Hooks.{
  class_enqueue_task, class_dequeue_task, class_check_preempt_curr, class_switched_from,
  class_switched_to, class_prio_changed,
}

-- `ENQUEUE_MIGRATED` is 0 on one CPU.
abbrev enqueue_migrated : ℕ
enqueue_migrated = 0x00

module _ {K : Kernel} where
  unfoldable pub sched_info_enqueue_task : State K → (p flags : ℕ) → State K
  sched_info_enqueue_task s p flags =
      if test_bits flags enqueue_restore
      then s
      else with_ext s (
          K.psi_enqueue p (test_bits flags enqueue_wakeup && not (test_bits flags enqueue_migrated))
            (K.sched_info_enqueue p s.ext))

  unfoldable pub enqueue_task : State K → (p flags : ℕ) → State K
  unfolding sched_info_enqueue_task
  enqueue_task s p flags =
      let ticked = if test_bits flags enqueue_noclock then s else update_rq_clock s in
      class_enqueue_task (sched_info_enqueue_task ticked p flags) (s.tasks p).sched_class p flags

  unfoldable pub sched_info_dequeue_task : State K → (p flags : ℕ) → State K
  sched_info_dequeue_task s p flags =
      if test_bits flags dequeue_save
      then s
      else with_ext s
          (K.psi_dequeue p (test_bits flags dequeue_sleep) (K.sched_info_dequeue p s.ext))

  unfoldable pub dequeue_task : State K → (p flags : ℕ) → State K
  unfolding sched_info_dequeue_task
  dequeue_task s p flags =
      let ticked = if test_bits flags enqueue_noclock then s else update_rq_clock s in
      class_dequeue_task (sched_info_dequeue_task ticked p flags) (s.tasks p).sched_class p flags

  -- `p->on_rq = …`
  unfoldable pub set_on_rq : State K → (p : ℕ) → ℕ → State K
  unfolding put_task write
  set_on_rq s p v = put_task s p (record (s.tasks p) { on_rq = v })

  unfoldable pub activate_task : State K → (p flags : ℕ) → State K
  unfolding set_on_rq
  activate_task s p flags =
      let flags' =
        if (s.tasks p).on_rq == task_on_rq_migrating
        then bit_or flags enqueue_migrated
        else flags in
      set_on_rq (enqueue_task s p flags') p task_on_rq_queued

  unfoldable pub deactivate_task : State K → (p flags : ℕ) → State K
  unfolding set_on_rq
  deactivate_task s p flags =
      dequeue_task
        (set_on_rq s p (if test_bits flags dequeue_sleep then 0 else task_on_rq_migrating)) p flags

  unfoldable pub check_class_changed : State K → (p : ℕ) → SchedClass → (oldprio : ℤ) → State K
  check_class_changed s p prev_class oldprio =
      let c = (s.tasks p).sched_class in
      if not (class_eq prev_class c)
      then class_switched_to (class_switched_from s prev_class p) c p
      else if not (eqb_ℤ oldprio (s.tasks p).prio) || K.dl_prio (s.tasks p).prio
      then class_prio_changed s c p
      else s

  -- `rq_clock_skip_update(rq)`
  unfoldable pub rq_clock_skip_update : State K → State K
  rq_clock_skip_update s = record s {
    rq = record (s.rq) { clock_update_flags = bit_or s.rq.clock_update_flags rqcf_req_skip };
  }

  unfoldable pub check_preempt_curr : State K → (p flags : ℕ) → State K
  unfolding rq_clock_skip_update
  check_preempt_curr s p flags =
      let c = (s.tasks p).sched_class in
      let curr_class = (s.tasks s.rq.curr).sched_class in
      let s' =
        if class_eq c curr_class
        then class_check_preempt_curr s curr_class p flags
        else if ltb (address curr_class) (address c)
        then resched_curr s
        else s in
      let curr = s'.tasks s'.rq.curr in
      if curr.on_rq == task_on_rq_queued && curr.need_resched then rq_clock_skip_update s' else s'
