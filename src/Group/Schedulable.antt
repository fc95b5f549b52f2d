-- ===== src/Group/Schedulable.antt =====
-- `__cfs_schedulable` of kernel/sched/core.c over the whole tree.
use lottery_scheduler.Base.{ℕ, ◌≡◌, ◌∙◌, true, false, ◌||◌, none, arith, ◌==◌}
use lottery_scheduler.Group.Walk.{Answer, and_then}
use lottery_scheduler.Group.Limits.{CfsSchedulableData, runtime_inf}
use lottery_scheduler.Group.Bandwidth.{
  Hierarchy, Groups, tg_cfs_schedulable_down, tg_nop, set_hierarchical_quota, quota_below,
  store_quota,
}
use lottery_scheduler.Group.Forest.{
  Forest, empty, tree, IsForest, IsTree, visit, visit_tree, has, IsDistinct,
}
use lottery_scheduler.Group.Walked.{
  After, After-and_then, After-map, Walked, Walked-refl, Walked-trans, Walked-Reads, Reads, Visited,
  down-Visited, Obeyed, Obeyed-same, hierarchical, Walked-set, set-at,
}

module _ {H : Hierarchy} (d : CfsSchedulableData) (q : ℕ → ℕ) (root : ℕ) where
  abbrev Down : ℕ → Groups H → Answer (Groups H)
  Down = tg_cfs_schedulable_down d

  abbrev Held : (p : ℕ) → Forest → Groups H → Groups H → Type 0
  Held p F s t = Walked (has F) s t × Obeyed q p F t

  -- A group, the walk below it and the walk after it.
  tree-Held :
      (p g : ℕ) (a b : Forest) (s t u e : Groups H)
      → ((x : ℕ) → has a x ≡ true → has b x ≡ false)
      → has a g ≡ false
      → has b g ≡ false
      → has (tree g a b) p ≡ false
      → Visited q s p g t
      → Held g a t u
      → Held p b u e
      → Held p (tree g a b) s e
  tree-Held p g a b s t u e apart ga gb out (v, i) (w, below) (z, after) =
      let all = Walked-trans v (Walked-trans w z) in
      let at_g = z.kept g gb in
      (
        all,
        (
          rw (all.kept p out, at_g, w.kept g ga) i,
          Obeyed-same q g a u e (λ x h. z.kept x (apart x h)) at_g below,
          after,
        ),
      )

  visit-Held :
      (p : ℕ) (F : Forest) (s : Groups H)
      → IsForest H.links root p F
      → IsDistinct F
      → has F p ≡ false
      → Reads d q s
      → After (Held p F s) (visit Down tg_nop F s)
  unfolding visit tg_nop and_then
  visit-Held p empty s f dis out r = (Walked-refl s, tt)
  visit-Held p (tree g a b) s (par, ne, fc, ns, fa, fb) (ga, gb, apart, da, db) out r =
      After-and_then (Visited q s p g) (Held p (tree g a b) s) (Down g s) _
        (down-Visited d q s p g par r)
        (λ t v.
          After-and_then (Held g a t) (Held p (tree g a b) s) (visit Down tg_nop a t) _
            (visit-Held g a t fa da ga (Walked-Reads d q v.0 r))
            (λ u w.
              After-map (Held p b u) (Held p (tree g a b) s) (visit Down tg_nop b u)
                (visit-Held p b u fb db (ground (arith, out))
                  (Walked-Reads d q w.0 (Walked-Reads d q v.0 r)))
                (λ e z. tree-Held p g a b s t u e apart ga gb out v w z)))

  -- The whole tree after its visit.
  abbrev pub Done : Forest → Groups H → Groups H → Type 0
  Done cs s t =
      Walked (λ x. x == root || has cs x) s t
      × Obeyed q root cs t
      × (hierarchical t root ≡ runtime_inf)

  pub visit_tree-Held :
      (cs : Forest) (s : Groups H)
      → H.links.parent root ≡ none
      → IsTree H.links root cs
      → IsDistinct cs
      → has cs root ≡ false
      → Reads d q s
      → After (Done cs s) (visit_tree Down tg_nop root cs s)
  unfolding visit_tree and_then tg_nop tg_cfs_schedulable_down quota_below store_quota
  visit_tree-Held cs s top (fc, f) dis out r =
      let t = set_hierarchical_quota s root runtime_inf in
      let v = Walked-set s root runtime_inf in
      rw top (
        After-and_then (Held root cs t) (Done cs s) (visit Down tg_nop cs t) (tg_nop root)
          (visit-Held root cs t f dis out (Walked-Reads d q v r))
          (λ u w. (Walked-trans v w.0, w.1, w.0.kept root out ∙ set-at s root runtime_inf)))
