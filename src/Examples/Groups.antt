-- ===== src/Examples/Groups.antt =====
-- The theorems on task groups of kernel/sched/core.c at four groups: 1 and 3 below the root 0, 2 below 1.
use lottery_scheduler.Base.{
  ℕ, suc, ◌+◌, ◌-◌, ◌==◌, if◌then◌else◌, ◌≡◌, refl, Bool, true, false, Option, none, some, List, [],
  ◌∷◌, arith,
}
use lottery_scheduler.Machine.{Errno, einval}
use lottery_scheduler.Group.Walk.{Links, Answer, walk_tg_tree_from}
use lottery_scheduler.Group.Visit.{walk_tg_tree_from-visit}
use lottery_scheduler.Group.Limits.{
  runtime_inf, check_bandwidth, tg_get_cfs_period, tg_get_cfs_burst,
}
use lottery_scheduler.Group.Bandwidth.{Hierarchy, Groups, tg_set_cfs_bandwidth}
use lottery_scheduler.Group.Quota.{tg_set_cfs_quota}
use lottery_scheduler.Group.Forest.{Forest, empty, tree, labels, visit_tree, has}
use lottery_scheduler.Group.Walked.{hierarchical}
use lottery_scheduler.Group.Accepted.{IsHierarchy, IsAnswer, tg_set_cfs_bandwidth-IsAnswer}
use lottery_scheduler.Group.Unified.{tg_set_cfs_bandwidth-unified}
use lottery_scheduler.Group.ReadBack.{Ends, ReadsAs, tg_set_cfs_quota-get}

abbrev pointers : Links
pointers = record {
  parent = λ g. if g == 0 then none else if g == 2 then some 1 else some 0;
  first_child = λ g. if g == 0 then some 1 else if g == 1 then some 2 else none;
  next_sibling = λ g. if g == 1 then some 3 else none;
}

abbrev below_root : Forest
below_root = tree 1 (tree 2 empty empty) (tree 3 empty empty)

-- The outside code counts the limited groups.
abbrev at_mount : Bool → Hierarchy
at_mount unified = record {
  links = pointers;
  root_task_group = 0;
  on_dfl = unified;
  online = 0 ∷ [];
  Ext = ℕ;
  cfs_bandwidth_usage_inc = λ e. e + 1;
  cfs_bandwidth_usage_dec = λ e. e - 1;
  refill_cfs_bandwidth_runtime = λ tg b e. e;
  start_cfs_bandwidth = λ tg e. e;
  unthrottle_cfs_rq = λ cpu tg rq e. (record rq { throttled = false }, e);
}

-- Group 1 may run half of the time, the others have no limit.
abbrev booted : (unified : Bool) → Groups (at_mount unified)
booted unified = record {
  cfs_bandwidth = λ g. record {
    period = 100000000;
    quota = if g == 1 then 50000000 else runtime_inf;
    burst = 0;
    hierarchical_quota = runtime_inf;
  };
  cfs_rq = λ cpu g. record { runtime_enabled = g == 1; runtime_remaining = 5; throttled = g == 1 };
  ext = 1;
}

booted-IsHierarchy : (unified : Bool) → IsHierarchy (at_mount unified) below_root
booted-IsHierarchy unified = record {
  tree = ground arith;
  top = refl;
  distinct = ground arith;
  root = refl;
}

-- The order of the visits: before the children `g`, after them `10 + g`.
abbrev note : (ℕ → ℕ) → ℕ → List ℕ → Answer (List ℕ)
note f g xs = (none, f g ∷ xs)

walked :
    walk_tg_tree_from pointers (note (λ g. g)) (note (λ g. 10 + g)) 0 7 []
    ≡ some (none, 10 ∷ 13 ∷ 3 ∷ 11 ∷ 12 ∷ 2 ∷ 1 ∷ 0 ∷ [])
unfolding walk_tg_tree_from
walked = refl

too_short : walk_tg_tree_from pointers (note (λ g. g)) (note (λ g. 10 + g)) 0 6 [] ≡ none
unfolding walk_tg_tree_from
too_short = refl

walk_tg_tree_from-visit_example :
    walk_tg_tree_from pointers (note (λ g. g)) (note (λ g. 10 + g)) 0 (suc (labels below_root)) []
    ≡ some (visit_tree (note (λ g. g)) (note (λ g. 10 + g)) 0 below_root [])
walk_tg_tree_from-visit_example =
    walk_tg_tree_from-visit pointers (note (λ g. g)) (note (λ g. 10 + g)) 0 below_root []
      (booted-IsHierarchy false).tree

-- The answer of a call, and the hierarchical quotas of the groups 0 to 3 after it.
abbrev outcome :
    {unified : Bool} → Option (Answer (Groups (at_mount unified))) → Option (Option Errno × List ℕ)
outcome none = none
outcome (some (e, s)) =
    some (e, hierarchical s 0 ∷ hierarchical s 1 ∷ hierarchical s 2 ∷ hierarchical s 3 ∷ [])

inherits :
    outcome (tg_set_cfs_bandwidth 7 3 100000000 25000000 0 (booted false))
    ≡ some (none, runtime_inf ∷ 524288 ∷ 524288 ∷ 262144 ∷ [])
unfolding tg_set_cfs_bandwidth
inherits = refl

over_parent :
    outcome (tg_set_cfs_bandwidth 7 2 100000000 75000000 0 (booted false))
    ≡ some (some einval, runtime_inf ∷ 524288 ∷ runtime_inf ∷ runtime_inf ∷ [])
unfolding tg_set_cfs_bandwidth
over_parent = refl

lost :
    outcome (tg_set_cfs_bandwidth 7 2 100000000 75000000 0 (booted true))
    ≡ some (none, runtime_inf ∷ runtime_inf ∷ runtime_inf ∷ runtime_inf ∷ [])
unfolding tg_set_cfs_bandwidth
lost = refl

tg_set_cfs_bandwidth-IsAnswer_example :
    (a : Answer (Groups (at_mount false))) × (tg_set_cfs_bandwidth
        (suc (labels below_root))
        3
        100000000
        25000000
        0
        (booted false)
      ≡ some a)
    × IsAnswer below_root 3 100000000 25000000 0 (booted false) a
tg_set_cfs_bandwidth-IsAnswer_example =
    tg_set_cfs_bandwidth-IsAnswer below_root 3 100000000 25000000 0 (booted false)
      (booted-IsHierarchy false)

tg_set_cfs_bandwidth-unified_example :
    (t : Groups (at_mount true)) × (tg_set_cfs_bandwidth
        (suc (labels below_root))
        2
        100000000
        75000000
        0
        (booted true)
      ≡ some (none, t))
    × ((x : ℕ) → has below_root x ≡ true → hierarchical t x ≡ runtime_inf)
unfolding check_bandwidth
tg_set_cfs_bandwidth-unified_example =
    tg_set_cfs_bandwidth-unified below_root 2 100000000 75000000 0 (booted true)
      (booted-IsHierarchy true) refl (λ x. ground arith) refl

tg_set_cfs_quota-get_example :
    Ends
      (ReadsAs 3 100000 25000 0)
      (tg_set_cfs_quota (suc (labels below_root)) 3 25000 (booted false))
unfolding tg_get_cfs_period tg_get_cfs_burst
tg_set_cfs_quota-get_example =
    tg_set_cfs_quota-get below_root (booted-IsHierarchy false) 3 25000 (booted false)
