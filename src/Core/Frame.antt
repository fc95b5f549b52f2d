-- ===== src/Core/Frame.antt =====
-- What the steps of kernel/sched/core.c leave alone that do not enqueue or dequeue: the lottery run
-- queue, its links, and the fields of tasks that it depends on.
use lottery_scheduler.Base.{
  ℕ, ◌≡◌, refl, ap, ◌∙◌, Bool, true, false, Option, none, some, arith, ltb, ◌&&◌, ◌==◌,
  if◌then◌else◌,
}
use lottery_scheduler.Core.Load.{load_weight, set_load, set_load_weight}
use lottery_scheduler.Task.{LoadWeight, fair, Task, SchedClass, class_eq, address, write}
use lottery_scheduler.Machine.{Kernel, State, put_task, with_ext}
use lottery_scheduler.Lottery.Hooks.{select, winner, pick_next_task_lottery, task_tick_lottery}
use lottery_scheduler.Core.Resched.{resched_curr}
use lottery_scheduler.Core.Clock.{SameQueue, update_rq_clock, update_rq_clock-SameQueue}
use lottery_scheduler.Core.Hooks.{
  is_lottery, after_hook, class_check_preempt_curr, class_put_prev_task, class_set_next_task,
  class_task_tick, class_prio_changed, class_switched_to,
}
use lottery_scheduler.Core.Queue.{check_preempt_curr}
use lottery_scheduler.Core.Pick.{put_prev_task, set_next_task}

-- The fields by which a task belongs to the lottery queue, and its tickets.
pub record SameTask (t u : Task) : Type 0 where
  pub sched_class : u.sched_class ≡ t.sched_class
  pub on_rq : u.on_rq ≡ t.on_rq
  pub tickets : u.tickets ≡ t.tickets
  pub policy : u.policy ≡ t.policy

module _ {K : Kernel} where
  pub record Frame (s t : State K) : Type 0 where
    pub ltr : t.rq.ltr ≡ s.rq.ltr
    pub links : t.links ≡ s.links
    pub curr : t.rq.curr ≡ s.rq.curr
    pub idle : t.rq.idle ≡ s.rq.idle
    pub tasks : (q : ℕ) → SameTask (s.tasks q) (t.tasks q)

  pub Frame-refl : (s : State K) → Frame s s
  Frame-refl s = record {
    ltr = refl;
    links = refl;
    curr = refl;
    idle = refl;
    tasks = λ q. ground arith;
  }

  pub Frame-trans : {s t u : State K} → Frame s t → Frame t u → Frame s u
  Frame-trans f g = record {
    ltr = g.ltr ∙ f.ltr;
    links = g.links ∙ f.links;
    curr = g.curr ∙ f.curr;
    idle = g.idle ∙ f.idle;
    tasks = λ q. ground (arith, f.tasks q, g.tasks q);
  }

  pub Frame-if : (b : Bool) {s t u : State K} → Frame s t → Frame s u → Frame s (if b then t else u)
  Frame-if true f g = f
  Frame-if false f g = g

  pub Frame-ext : (s : State K) (e : K.Ext) → Frame s (with_ext s e)
  Frame-ext s e = record {
    ltr = refl;
    links = refl;
    curr = refl;
    idle = refl;
    tasks = λ q. ground arith;
  }

  pub Frame-SameQueue : {s t : State K} → SameQueue s t → Frame s t
  Frame-SameQueue h = record {
    ltr = h.ltr;
    links = h.links;
    curr = h.curr;
    idle = h.idle;
    tasks = λ q. ground (arith, ap (λ m. m q) h.tasks);
  }

  pub Frame-if_pair :
      {A : Type 0} (b : Bool) {s : State K} (t u : A × State K)
      → Frame s t.1
      → Frame s u.1
      → Frame s (if b then t else u).1
  Frame-if_pair true t u f g = f
  Frame-if_pair false t u f g = g

  -- A write to a task that keeps those fields.
  pub Frame-put_task :
      (s : State K) (p : ℕ) (t : Task) → SameTask (s.tasks p) t → Frame s (put_task s p t)
  unfolding put_task write
  Frame-put_task s p t h = record {
    ltr = refl;
    links = refl;
    curr = refl;
    idle = refl;
    tasks = λ q. ground arith;
  }

  Frame-set_load : (s : State K) (p : ℕ) (lw : LoadWeight) → Frame s (set_load s p lw)
  unfolding set_load
  Frame-set_load s p lw = Frame-put_task s p _ (ground arith)

  pub Frame-set_load_weight :
      (s : State K) (p : ℕ) (update : Bool) → Frame s (set_load_weight s p update)
  unfolding set_load_weight
  Frame-set_load_weight s p update =
      let (load, e) = K.reweight_task s.tasks p (load_weight s p) s.ext in
      Frame-if (update && class_eq (s.tasks p).sched_class fair)
        (Frame-trans (Frame-set_load s p load) (Frame-ext (set_load s p load) e))
        (Frame-set_load s p (load_weight s p))

  -- The two states agree on run queue, links and tasks, whatever else differs.
  pub Frame-rest :
      {s t u : State K}
      → Frame s t
      → u.rq.ltr ≡ t.rq.ltr
      → u.links ≡ t.links
      → u.rq.curr ≡ t.rq.curr
      → u.rq.idle ≡ t.rq.idle
      → u.tasks ≡ t.tasks
      → Frame s u
  Frame-rest f ltr links curr idle tasks = record {
    ltr = ltr ∙ f.ltr;
    links = links ∙ f.links;
    curr = curr ∙ f.curr;
    idle = idle ∙ f.idle;
    tasks = λ q. rw tasks (f.tasks q);
  }

  pub Frame-resched_curr : (s : State K) → Frame s (resched_curr s)
  unfolding resched_curr
  Frame-resched_curr s =
      Frame-if (s.tasks s.rq.curr).need_resched (Frame-refl s)
        (Frame-rest (Frame-put_task s s.rq.curr _ (ground arith)) refl refl refl refl refl)

  pub Frame-update_rq_clock : (s : State K) → Frame s (update_rq_clock s)
  Frame-update_rq_clock s = Frame-SameQueue (update_rq_clock-SameQueue s)

  pub Frame-after_hook : (s : State K) (r : Bool × K.Ext) → Frame s (after_hook s r)
  unfolding after_hook
  Frame-after_hook s (b, e) =
      Frame-if b (Frame-trans (Frame-ext s e) (Frame-resched_curr (with_ext s e))) (Frame-ext s e)

  pub Frame-check_preempt_curr :
      (s : State K) (p flags : ℕ) → Frame s (check_preempt_curr s p flags)
  unfolding check_preempt_curr class_check_preempt_curr
  Frame-check_preempt_curr s p flags =
      let c = (s.tasks p).sched_class in
      let curr_class = (s.tasks s.rq.curr).sched_class in
      let first =
        Frame-if (class_eq c curr_class)
          (Frame-if (is_lottery curr_class) (Frame-refl s)
            (Frame-after_hook s ((K.ops curr_class).check_preempt_curr s.tasks p flags s.ext)))
          (Frame-if (ltb (address curr_class) (address c)) (Frame-resched_curr s) (Frame-refl s)) in
      Frame-if _ (Frame-rest first refl refl refl refl refl) first

  pub Frame-put_prev_task : (s : State K) (p : ℕ) → Frame s (put_prev_task s p)
  unfolding put_prev_task class_put_prev_task
  Frame-put_prev_task s p = Frame-if _ (Frame-refl s) (Frame-ext s _)

  pub Frame-set_next_task : (s : State K) (p : ℕ) → Frame s (set_next_task s p)
  unfolding set_next_task class_set_next_task
  Frame-set_next_task s p = Frame-if _ (Frame-refl s) (Frame-ext s _)

  pub Frame-prio_changed :
      (s : State K) (c : SchedClass) (p : ℕ) → Frame s (class_prio_changed s c p)
  unfolding class_prio_changed
  Frame-prio_changed s c p =
      Frame-if (is_lottery c) (Frame-refl s)
        (Frame-after_hook s ((K.ops c).prio_changed s.tasks p s.ext))

  pub Frame-switched_to : (s : State K) (c : SchedClass) (p : ℕ) → Frame s (class_switched_to s c p)
  unfolding class_switched_to
  Frame-switched_to s c p =
      Frame-if (is_lottery c) (Frame-refl s)
        (Frame-after_hook s ((K.ops c).switched_to s.tasks p s.ext))

  pub Frame-select : (s : State K) (o : Option ℕ) → Frame s (select s o).1
  unfolding select
  Frame-select s none = Frame-refl s
  Frame-select s (some p) = Frame-rest (Frame-refl s) refl refl refl refl refl

  pub Frame-pick_lottery : (s : State K) → Frame s (pick_next_task_lottery s).1
  unfolding pick_next_task_lottery
  Frame-pick_lottery s =
      let (r, e) = K.get_random_u32 s.ext in
      let drawn = Frame-trans (Frame-ext s e) (Frame-select (with_ext s e) (winner s r)) in
      Frame-if_pair (s.rq.ltr.total_tickets == 0) _ _ (Frame-refl s)
        (Frame-if_pair (K.lists.list_empty s.links) _ _ (Frame-refl s) drawn)

  pub Frame-task_tick : (s : State K) (c : SchedClass) (p : ℕ) → Frame s (class_task_tick s c p)
  unfolding class_task_tick task_tick_lottery
  Frame-task_tick s c p =
      let e = (K.get_random_u32 s.ext).1 in
      Frame-if (is_lottery c)
        (Frame-if _ (Frame-refl s) (
          Frame-if _ (Frame-trans (Frame-ext s e) (Frame-resched_curr (with_ext s e)))
            (Frame-ext s e)))
        (Frame-after_hook s _)
