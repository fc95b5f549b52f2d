-- ===== src/Group/Bandwidth.antt =====
-- `tg_set_cfs_bandwidth` and `__cfs_schedulable` of kernel/sched/core.c on the memory of all groups.
use lottery_scheduler.Base.{
  ℕ, Bool, ◌&&◌, not, Option, none, some, List, [], ◌∷◌, ◌==◌, if◌then◌else◌, write_at,
}
use lottery_scheduler.Machine.{Errno, einval}
use lottery_scheduler.Group.Walk.{Links, Answer, and_then, walk_tg_tree_from}
use lottery_scheduler.Group.Limits.{
  CfsBandwidth, runtime_inf, CfsSchedulableData, normalize_cfs_quota, quota_under, schedulable_data,
  check_bandwidth,
}

pub record CfsRq : Type 0 where
  pub runtime_enabled : Bool
  pub runtime_remaining : ℕ
  pub throttled : Bool

-- The pointers of the groups, and what is outside the repository: `on_dfl` is
-- `cgroup_subsys_on_dfl(cpu_cgrp_subsys)`, and the functions are those of kernel/sched/fair.c.
pub record Hierarchy : Type 1 where
  pub links : Links
  pub root_task_group : ℕ
  pub on_dfl : Bool
  pub online : List ℕ
  pub Ext : Type 0
  pub cfs_bandwidth_usage_inc : Ext → Ext
  pub cfs_bandwidth_usage_dec : Ext → Ext
  pub refill_cfs_bandwidth_runtime : (tg : ℕ) → CfsBandwidth → Ext → Ext
  pub start_cfs_bandwidth : (tg : ℕ) → Ext → Ext
  pub unthrottle_cfs_rq : (cpu tg : ℕ) → CfsRq → Ext → CfsRq × Ext

pub record Groups (H : Hierarchy) : Type 0 where
  pub cfs_bandwidth : (tg : ℕ) → CfsBandwidth
  pub cfs_rq : (cpu : ℕ) → (tg : ℕ) → CfsRq
  pub ext : H.Ext

module _ {H : Hierarchy} where
  -- `cfs_b->hierarchical_quota = quota`
  unfoldable pub set_hierarchical_quota : Groups H → (tg quota : ℕ) → Groups H
  unfolding write_at
  set_hierarchical_quota s tg quota = record s {
    cfs_bandwidth =
        write_at s.cfs_bandwidth tg (record (s.cfs_bandwidth tg) { hierarchical_quota = quota });
  }

  -- The end of `tg_cfs_schedulable_down`: the quota, or -EINVAL without one.
  unfoldable pub store_quota : Groups H → (tg : ℕ) → Option ℕ → Answer (Groups H)
  unfolding set_hierarchical_quota
  store_quota s tg (some quota) = (none, set_hierarchical_quota s tg quota)
  store_quota s tg none = (some einval, s)

  -- The quota for `tg->parent`.
  unfoldable pub quota_below : CfsSchedulableData → (tg : ℕ) → Option ℕ → Groups H → Option ℕ
  unfolding normalize_cfs_quota quota_under
  quota_below d tg none s = some runtime_inf
  quota_below d tg (some parent) s =
      quota_under H.on_dfl (normalize_cfs_quota tg (s.cfs_bandwidth tg) d)
        (s.cfs_bandwidth parent).hierarchical_quota

  unfoldable pub tg_cfs_schedulable_down :
      CfsSchedulableData → (tg : ℕ) → Groups H → Answer (Groups H)
  unfolding quota_below store_quota
  tg_cfs_schedulable_down d tg s = store_quota s tg (quota_below d tg (H.links.parent tg) s)

  unfoldable pub tg_nop : (tg : ℕ) → Groups H → Answer (Groups H)
  tg_nop tg s = (none, s)

  -- `__cfs_schedulable`; none if the walk needs more labels than `fuel`.
  unfoldable pub cfs_schedulable :
      (fuel tg period quota : ℕ) → Groups H → Option (Answer (Groups H))
  unfolding schedulable_data tg_cfs_schedulable_down tg_nop walk_tg_tree_from
  cfs_schedulable fuel tg period quota s =
      let data' = schedulable_data tg period quota in
      walk_tg_tree_from H.links (tg_cfs_schedulable_down data') tg_nop H.root_task_group fuel s

  -- The body of `for_each_online_cpu`.
  unfoldable pub reset_cfs_rq :
      (tg : ℕ) → (runtime_enabled : Bool) → (cpu : ℕ) → Groups H → Groups H
  unfolding write_at
  reset_cfs_rq tg enabled cpu s =
      let rq = record (s.cfs_rq cpu tg) { runtime_enabled = enabled; runtime_remaining = 0 } in
      let (rq', e) = if rq.throttled then H.unthrottle_cfs_rq cpu tg rq s.ext else (rq, s.ext) in
      record s { cfs_rq = write_at s.cfs_rq cpu (write_at (s.cfs_rq cpu) tg rq'); ext = e }

  unfoldable pub reset_online : (tg : ℕ) → (runtime_enabled : Bool) → List ℕ → Groups H → Groups H
  unfolding reset_cfs_rq
  reset_online tg enabled [] s = s
  reset_online tg enabled (cpu ∷ cpus) s =
      reset_online tg enabled cpus (reset_cfs_rq tg enabled cpu s)

  -- `cfs_b->period` to `start_cfs_bandwidth(cfs_b)`
  unfoldable pub write_bandwidth : (tg period quota burst : ℕ) → Groups H → Groups H
  unfolding write_at
  write_bandwidth tg p q b s =
      let cfs_b = record (s.cfs_bandwidth tg) { period = p; quota = q; burst = b } in
      let e = H.refill_cfs_bandwidth_runtime tg cfs_b s.ext in
      record s {
        cfs_bandwidth = write_at s.cfs_bandwidth tg cfs_b;
        ext = if not (q == runtime_inf) then H.start_cfs_bandwidth tg e else e;
      }

  -- After `__cfs_schedulable`.
  unfoldable pub change_bandwidth : (tg period quota burst : ℕ) → Groups H → Groups H
  unfolding write_bandwidth reset_online
  change_bandwidth tg p q b s =
      let enabled = not (q == runtime_inf) in
      let was_enabled = not ((s.cfs_bandwidth tg).quota == runtime_inf) in
      let t =
        if enabled && not was_enabled
        then record s { ext = H.cfs_bandwidth_usage_inc s.ext }
        else s in
      let u = reset_online tg enabled H.online (write_bandwidth tg p q b t) in
      if was_enabled && not enabled then record u { ext = H.cfs_bandwidth_usage_dec u.ext } else u

  -- `ret`, and the change if it is 0.
  unfoldable pub schedulable_or_out :
      (tg period quota burst : ℕ) → Option (Answer (Groups H)) → Option (Answer (Groups H))
  unfolding and_then change_bandwidth
  schedulable_or_out tg p q b none = none
  schedulable_or_out tg p q b (some a) =
      some (and_then a (λ ret t. (ret, t)) (λ t. (none, change_bandwidth tg p q b t)))

  unfoldable pub unless_refused :
      Option Errno → Groups H → Option (Answer (Groups H)) → Option (Answer (Groups H))
  unless_refused (some e) s rest = some (some e, s)
  unless_refused none s rest = rest

  unfoldable pub tg_set_cfs_bandwidth :
      (fuel tg period quota burst : ℕ) → Groups H → Option (Answer (Groups H))
  unfolding check_bandwidth cfs_schedulable schedulable_or_out unless_refused
  tg_set_cfs_bandwidth fuel tg p q b s =
      unless_refused (check_bandwidth H.root_task_group tg p q b) s
        (schedulable_or_out tg p q b (cfs_schedulable fuel tg p q s))
