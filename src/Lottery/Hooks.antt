-- ===== src/Lottery/Hooks.antt =====
-- The functions of kernel/sched/lottery.c.
use lottery_scheduler.Base.{
  ℕ, ◌%◌, not, ◌&&◌, Option, none, some, List, [], ◌∷◌, ltb, leb, ◌==◌, if◌then◌else◌, add32, sub32,
}
use lottery_scheduler.Task.{Tasks, sched_lottery}
use lottery_scheduler.Machine.{Kernel, LtrRq, Op, State, members, with_ext}
use lottery_scheduler.Core.Resched.{resched_curr}

-- The walk of `pick_next_task_lottery` over the queue: `task` is the entry seen last, `cnt` is
-- `tickets_cnt`. A task of another policy is passed over, but it stays in `task`.
unfoldable pub draw : Tasks → (lucky cnt : ℕ) → (task : Option ℕ) → List ℕ → Option ℕ
draw m lucky cnt task [] = task
draw m lucky cnt task (x ∷ xs) =
    let counts = (m x).policy == sched_lottery in
    let next = add32 cnt (m x).tickets in
    if counts && (ltb lucky next && leb cnt lucky)
    then some x
    else draw m lucky (if counts then next else cnt) (some x) xs

module _ {K : Kernel} where
  abbrev with_ltr : State K → LtrRq → State K
  with_ltr s l = record s { rq = record (s.rq) { ltr = l } }

  -- `log_event(p->pid, op)`
  unfoldable pub log_event : State K → ℕ → Op → State K
  log_event s p op = record s {
    log = record { pid = (s.tasks p).pid; time = K.ktime_get_ns s.ext; op = op } ∷ s.log;
  }

  unfoldable pub init_ltr_rq : State K → State K
  init_ltr_rq s = record s {
    links = K.lists.init_list_head s.links;
    rq = record (s.rq) { ltr = record { nr_running = 0; total_tickets = 0 } };
  }

  unfoldable pub enqueue_task_lottery : State K → (p flags : ℕ) → State K
  unfolding log_event
  enqueue_task_lottery s p flags =
      let linked : State K = record s { links = K.lists.list_add_tail p s.links } in
      log_event
        (with_ltr linked (record {
          nr_running = add32 s.rq.ltr.nr_running 1;
          total_tickets = add32 s.rq.ltr.total_tickets (s.tasks p).tickets;
        }))
        p Op.enqueue

  -- The counters and the log after list_del, which stay as they were if it has faulted.
  unfoldable pub unless_faulted : (unlinked counted : State K) → State K
  unless_faulted u t =
      let stopped = K.lists.faulted u.links in
      record t {
        rq = record (t.rq) { ltr = if stopped then u.rq.ltr else t.rq.ltr };
        log = if stopped then u.log else t.log;
      }

  unfoldable pub dequeue_task_lottery : State K → (p flags : ℕ) → State K
  unfolding log_event unless_faulted
  dequeue_task_lottery s p flags =
      let unlinked : State K = record s { links = K.lists.list_del p s.links } in
      unless_faulted unlinked (
        log_event
          (with_ltr unlinked (record {
            nr_running = sub32 s.rq.ltr.nr_running 1;
            total_tickets = sub32 s.rq.ltr.total_tickets (s.tasks p).tickets;
          }))
          p Op.dequeue)

  -- The task that the random number `r` selects from the queue.
  unfoldable pub winner : State K → ℕ → Option ℕ
  unfolding draw
  winner s r = draw s.tasks (r % s.rq.ltr.total_tickets) 0 none (members s)

  -- `pick_next_task_lottery` behind the call of `get_random_bytes`.
  unfoldable pub select : State K → Option ℕ → Option ℕ × State K
  unfolding log_event
  select s none = (none, s)
  select s (some p) = (some p, log_event s p Op.select)

  unfoldable pub pick_next_task_lottery : State K → Option ℕ × State K
  unfolding winner select
  pick_next_task_lottery s =
      if s.rq.ltr.total_tickets == 0
      then (none, s)
      else if K.lists.list_empty s.links
      then (none, s)
      else let (r, e) = K.get_random_u32 s.ext in select (with_ext s e) (winner s r)

  unfoldable pub task_tick_lottery : State K → (p : ℕ) → State K
  unfolding resched_curr
  task_tick_lottery s p =
      if leb s.rq.ltr.nr_running 1
      then s
      else let (r, e) = K.get_random_u32 s.ext in
        let s' : State K = with_ext s e in if r % 10 == 0 then resched_curr s' else s'

  unfoldable pub switched_from_lottery : State K → (p : ℕ) → State K
  unfolding dequeue_task_lottery
  switched_from_lottery s p =
      if not (K.lists.list_empty_entry p s.links) then dequeue_task_lottery s p 0 else s
