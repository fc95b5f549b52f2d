-- ===== src/Group/Accepted.antt =====
-- `tg_set_cfs_bandwidth` of kernel/sched/core.c: the limits that it accepts against the tree.
use lottery_scheduler.Base.{
  refl, ℕ, suc, ◌≡◌, sym, ap, ◌∙◌, false, none, some, Option-cases, inl, inr,
}
use lottery_scheduler.Group.Walk.{Answer, and_then}
use lottery_scheduler.Group.Visit.{walk_tg_tree_from-visit}
use lottery_scheduler.Group.Limits.{schedulable_data, runtime_inf, check_bandwidth}
use lottery_scheduler.Group.Bandwidth.{
  Hierarchy, Groups, tg_cfs_schedulable_down, tg_nop, cfs_schedulable, change_bandwidth,
  schedulable_or_out, unless_refused, tg_set_cfs_bandwidth,
}
use lottery_scheduler.Group.Forest.{Forest, IsTree, visit_tree, labels, has, IsDistinct}
use lottery_scheduler.Group.Walked.{
  After, Walked-Reads, Obeyed, Obeyed-same, Obeyed-ratio, hierarchical,
}
use lottery_scheduler.Group.Schedulable.{Done, visit_tree-Held}
use lottery_scheduler.Group.Refused.{SameLimits, schedulable-SameLimits}
use lottery_scheduler.Group.Changed.{
  own_ratio, IsChanged, change-IsChanged, normalize-own, change_bandwidth-hierarchical,
}

-- The memory of the groups: these groups and no others, none of them twice.
pub record IsHierarchy (H : Hierarchy) (cs : Forest) : Type 0 where
  pub tree : IsTree H.links H.root_task_group cs
  pub top : H.links.parent H.root_task_group ≡ none
  pub distinct : IsDistinct cs
  pub root : has cs H.root_task_group ≡ false

module _ {H : Hierarchy} where
  -- The hierarchical quota of each group is that of its parent and its own ratio, and the root has
  -- no limit.
  abbrev pub IsSchedulable : Forest → Groups H → Type 0
  IsSchedulable cs s =
      Obeyed (own_ratio s) H.root_task_group cs s × (hierarchical s H.root_task_group ≡ runtime_inf)

  -- After an answer of 0.
  abbrev pub IsGranted : Forest → (tg period quota burst : ℕ) → (s t : Groups H) → Type 0
  IsGranted cs tg p q b s t = IsSchedulable cs t × IsChanged tg p q b s t

  change-IsSchedulable :
      (cs : Forest) (tg p q b : ℕ) (s t : Groups H)
      → Done
          (schedulable_data tg p q)
          (own_ratio (change_bandwidth tg p q b s))
          H.root_task_group
          cs
          s
          t
      → IsSchedulable cs (change_bandwidth tg p q b t)
  change-IsSchedulable cs tg p q b s t (w, o, top) =
      let d = schedulable_data tg p q in
      let old = own_ratio (change_bandwidth tg p q b s) in
      let same = change_bandwidth-hierarchical tg p q b t in
      let read = Walked-Reads d old w (normalize-own tg p q b s) in
      (
        Obeyed-ratio old _ H.root_task_group cs (change_bandwidth tg p q b t)
            (λ x. sym (normalize-own tg p q b t x) ∙ read x)
            (Obeyed-same old H.root_task_group cs t (change_bandwidth tg p q b t) (λ x h. same x)
              (same H.root_task_group) o),
        same H.root_task_group ∙ top,
      )

  cfs_schedulable-visit :
      (cs : Forest) (tg p q : ℕ) (s : Groups H)
      → IsHierarchy H cs
      → cfs_schedulable (suc (labels cs)) tg p q s
        ≡ some (
            visit_tree
              (tg_cfs_schedulable_down (schedulable_data tg p q))
              tg_nop
              H.root_task_group
              cs
              s)
  unfolding cfs_schedulable
  cfs_schedulable-visit cs tg p q s h = walk_tg_tree_from-visit H.links _ _ _ cs s h.tree

  -- The answer of `tg_set_cfs_bandwidth` if it passes the first refusals.
  abbrev pub answer : Forest → (tg period quota burst : ℕ) → Groups H → Answer (Groups H)
  answer cs tg p q b s =
      and_then
        (visit_tree (tg_cfs_schedulable_down (schedulable_data tg p q)) tg_nop H.root_task_group cs
          s)
        (λ e t. (e, t)) (λ t. (none, change_bandwidth tg p q b t))

  pub tg_set_cfs_bandwidth-answer :
      (cs : Forest) (tg p q b : ℕ) (s : Groups H)
      → IsHierarchy H cs
      → check_bandwidth H.root_task_group tg p q b ≡ none
      → tg_set_cfs_bandwidth (suc (labels cs)) tg p q b s ≡ some (answer cs tg p q b s)
  unfolding tg_set_cfs_bandwidth unless_refused schedulable_or_out
  tg_set_cfs_bandwidth-answer cs tg p q b s h fine =
      ap
        (λ o.
          unless_refused o s
            (schedulable_or_out tg p q b (cfs_schedulable (suc (labels cs)) tg p q s)))
        fine
      ∙ ap (schedulable_or_out tg p q b) (cfs_schedulable-visit cs tg p q s h)

  -- An answer of 0, or an error that leaves the limits of all groups as they were.
  abbrev pub IsAnswer : Forest → (tg period quota burst : ℕ) → Groups H → Answer (Groups H) → Type 0
  IsAnswer cs tg p q b s (none, t) = IsGranted cs tg p q b s t
  IsAnswer cs tg p q b s (some e, t) = SameLimits s t

  changed-IsAnswer :
      (cs : Forest) (tg p q b : ℕ) (s : Groups H) (v : Answer (Groups H))
      → After
          (Done
            (schedulable_data tg p q)
            (own_ratio (change_bandwidth tg p q b s))
            H.root_task_group
            cs
            s)
          v
      → SameLimits s v.1
      → IsAnswer cs tg p q b s
          (and_then v (λ e t. (e, t)) (λ t. (none, change_bandwidth tg p q b t)))
  unfolding and_then
  changed-IsAnswer cs tg p q b s (none, t) done same =
      (change-IsSchedulable cs tg p q b s t done, change-IsChanged tg p q b s t done.0)
  changed-IsAnswer cs tg p q b s (some e, t) done same = same

  pub answer-IsAnswer :
      (cs : Forest) (tg p q b : ℕ) (s : Groups H)
      → IsHierarchy H cs
      → IsAnswer cs tg p q b s (answer cs tg p q b s)
  answer-IsAnswer cs tg p q b s h =
      let d = schedulable_data tg p q in
      let own = own_ratio (change_bandwidth tg p q b s) in
      let root = H.root_task_group in
      changed-IsAnswer cs tg p q b s (visit_tree (tg_cfs_schedulable_down d) tg_nop root cs s)
        (visit_tree-Held d own root cs s h.top h.tree h.distinct h.root (normalize-own tg p q b s))
        (schedulable-SameLimits d root cs s)

  -- On a tree of groups, tg_set_cfs_bandwidth ends with an answer. If it is 0, the group has its new
  -- limits and every other group its own, and the hierarchical quota of each group is the one that
  -- its own limits and the hierarchical quota of its parent call for, without a limit at the root. If
  -- it is an error, every group has its own limits.
  pub tg_set_cfs_bandwidth-IsAnswer :
      (cs : Forest) (tg p q b : ℕ) (s : Groups H)
      → IsHierarchy H cs
      → (a : Answer (Groups H)) × (tg_set_cfs_bandwidth (suc (labels cs)) tg p q b s ≡ some a)
        × IsAnswer cs tg p q b s a
  unfolding tg_set_cfs_bandwidth unless_refused
  tg_set_cfs_bandwidth-IsAnswer cs tg p q b s h =
      elim (Option-cases (check_bandwidth H.root_task_group tg p q b)) [
        | inl fine ↦ (
          answer cs tg p q b s,
          tg_set_cfs_bandwidth-answer cs tg p q b s h fine,
          answer-IsAnswer cs tg p q b s h,
        )
        | inr (e, refused) ↦ (
          (some e, s),
          ap
              (λ o.
                unless_refused o s
                  (schedulable_or_out tg p q b (cfs_schedulable (suc (labels cs)) tg p q s)))
              refused,
          λ x. refl,
        )
      ]
