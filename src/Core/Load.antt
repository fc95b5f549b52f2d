-- ===== src/Core/Load.antt =====
-- `set_load_weight` of kernel/sched/core.c, with the tables of weights at its end and the shift of
-- kernel/sched/sched.h on 64 bits.
use lottery_scheduler.Base.{
  ℕ, ◌*◌, Bool, none, some, List, [], ◌∷◌, ◌&&◌, if◌then◌else◌, get_elem?, ℤ, pos, negsuc, ◌-ℤ◌,
  ◌^◌,
}
use lottery_scheduler.Task.{LoadWeight, fair, class_eq, idle_policy, write}
use lottery_scheduler.Machine.{Kernel, State, put_task, with_ext}

-- By nice level, from -20 to 19.
unfoldable pub sched_prio_to_weight : List ℕ
sched_prio_to_weight =
    88761 ∷ 71755 ∷ 56483 ∷ 46273 ∷ 36291 ∷ 29154 ∷ 23254 ∷ 18705 ∷ 14949 ∷ 11916 ∷ 9548 ∷ 7620
    ∷ 6100 ∷ 4904 ∷ 3906 ∷ 3121 ∷ 2501 ∷ 1991 ∷ 1586 ∷ 1277 ∷ 1024 ∷ 820 ∷ 655 ∷ 526 ∷ 423 ∷ 335
    ∷ 272 ∷ 215 ∷ 172 ∷ 137 ∷ 110 ∷ 87 ∷ 70 ∷ 56 ∷ 45 ∷ 36 ∷ 29 ∷ 23 ∷ 18 ∷ 15 ∷ []

-- 2^32 by these.
unfoldable pub sched_prio_to_wmult : List ℕ
sched_prio_to_wmult =
    48388 ∷ 59856 ∷ 76040 ∷ 92818 ∷ 118348 ∷ 147320 ∷ 184698 ∷ 229616 ∷ 287308 ∷ 360437 ∷ 449829
    ∷ 563644 ∷ 704093 ∷ 875809 ∷ 1099582 ∷ 1376151 ∷ 1717300 ∷ 2157191 ∷ 2708050 ∷ 3363326 ∷ 4194304
    ∷ 5237765 ∷ 6557202 ∷ 8165337 ∷ 10153587 ∷ 12820798 ∷ 15790321 ∷ 19976592 ∷ 24970740 ∷ 31350126
    ∷ 39045157 ∷ 49367440 ∷ 61356676 ∷ 76695844 ∷ 95443717 ∷ 119304647 ∷ 148102320 ∷ 186737708
    ∷ 238609294 ∷ 286331153 ∷ []

abbrev pub weight_idleprio : ℕ
weight_idleprio = 3

abbrev pub wmult_idleprio : ℕ
wmult_idleprio = 1431655765

-- `w << SCHED_FIXEDPOINT_SHIFT`
unfoldable pub scale_load : ℕ → ℕ
scale_load w = w * 2 ^ 10

-- The entry of a table, or what lies beyond it.
unfoldable pub entry : List ℕ → (ℤ → ℕ) → ℤ → ℕ
entry xs beyond (pos i) = elim (get_elem? xs i) [ some w ↦ w | none ↦ beyond (pos i) ]
entry xs beyond (negsuc i) = beyond (negsuc i)

module _ {K : Kernel} where
  -- `lw`
  unfoldable pub load_weight : State K → (p : ℕ) → LoadWeight
  unfolding entry scale_load
  load_weight s p =
      let prio = (s.tasks p).static_prio -ℤ pos K.max_rt_prio in
      if idle_policy (s.tasks p).policy
      then record { weight = scale_load weight_idleprio; inv_weight = wmult_idleprio }
      else record {
        weight = scale_load (entry sched_prio_to_weight K.beyond_weight prio);
        inv_weight = entry sched_prio_to_wmult K.beyond_wmult prio;
      }

  -- `p->se.load = lw`
  unfoldable pub set_load : State K → (p : ℕ) → LoadWeight → State K
  unfolding put_task write
  set_load s p lw =
      let t = s.tasks p in put_task s p (record t { se = record (t.se) { load = lw } })

  unfoldable pub set_load_weight : State K → (p : ℕ) → (update_load : Bool) → State K
  unfolding load_weight set_load
  set_load_weight s p update_load =
      let lw = load_weight s p in
      if update_load && class_eq (s.tasks p).sched_class fair
      then (let (load, e) = K.reweight_task s.tasks p lw s.ext in with_ext (set_load s p load) e)
      else set_load s p lw
