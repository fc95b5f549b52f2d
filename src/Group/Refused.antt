-- ===== src/Group/Refused.antt =====
-- `__cfs_schedulable` of kernel/sched/core.c leaves the limits of all groups alone, also where it fails.
use lottery_scheduler.Base.{ℕ, ◌≡◌, refl, Option, none, some, arith}
use lottery_scheduler.Group.Walk.{Answer, and_then}
use lottery_scheduler.Group.Forest.{Forest, empty, tree, visit, visit_tree}
use lottery_scheduler.Group.Limits.{CfsSchedulableData}
use lottery_scheduler.Group.Bandwidth.{
  Hierarchy, Groups, quota_below, store_quota, tg_cfs_schedulable_down, tg_nop,
}
use lottery_scheduler.Group.Walked.{Walked-set}
use lottery_scheduler.Group.Changed.{limits}

-- What every step keeps, an error or not.
module _ {ℓ κ} {A : Type ℓ} (P : A → Type κ) where
  and_then-keeps :
      (a : Answer A) (next : A → Answer A)
      → P a.1
      → ((t : A) → P t → P (next t).1)
      → P (and_then a (λ e t. (e, t)) next).1
  unfolding and_then
  and_then-keeps (none, t) next h step = step t h
  and_then-keeps (some e, t) next h step = h

  abbrev Keeps : (ℕ → A → Answer A) → Type (ℓ ⊔ κ)
  Keeps f = (g : ℕ) (s : A) → P s → P (f g s).1

  module _ (enter exit : ℕ → A → Answer A) (i : Keeps enter) (o : Keeps exit) where
    visit-keeps : (F : Forest) (s : A) → P s → P (visit enter exit F s).1
    unfolding visit
    visit-keeps empty s h = h
    visit-keeps (tree g a b) s h = and_then-keeps (enter g s) _ (i g s h) (λ t ht.
        and_then-keeps (visit enter exit a t) _ (visit-keeps a t ht)
          (λ u hu. and_then-keeps (exit g u) _ (o g u hu) (λ v hv. visit-keeps b v hv)))

    pub visit_tree-keeps :
        (root : ℕ) (F : Forest) (s : A) → P s → P (visit_tree enter exit root F s).1
    unfolding visit_tree
    visit_tree-keeps root F s h =
        and_then-keeps (enter root s) _ (i root s h) (λ t ht.
          and_then-keeps (visit enter exit F t) _ (visit-keeps F t ht) (λ u hu. o root u hu))

module _ {H : Hierarchy} where
  abbrev pub SameLimits : (s t : Groups H) → Type 0
  SameLimits s t = (x : ℕ) → limits (t.cfs_bandwidth x) ≡ limits (s.cfs_bandwidth x)

  store_quota-SameLimits :
      (s t : Groups H) (g : ℕ) (o : Option ℕ) → SameLimits s t → SameLimits s (store_quota t g o).1
  unfolding store_quota
  store_quota-SameLimits s t g none h x = h x
  store_quota-SameLimits s t g (some v) h x =
      let w = Walked-set t g v in ground (arith, w.period x, w.quota x, w.burst x, h x)

  down-SameLimits :
      (d : CfsSchedulableData) (s : Groups H) (g : ℕ) (t : Groups H)
      → SameLimits s t
      → SameLimits s (tg_cfs_schedulable_down d g t).1
  unfolding tg_cfs_schedulable_down
  down-SameLimits d s g t h = store_quota-SameLimits s t g (quota_below d g (H.links.parent g) t) h

  pub schedulable-SameLimits :
      (d : CfsSchedulableData) (root : ℕ) (F : Forest) (s : Groups H)
      → SameLimits s (visit_tree (tg_cfs_schedulable_down d) tg_nop root F s).1
  unfolding tg_nop
  schedulable-SameLimits d root F s =
      visit_tree-keeps (SameLimits s) (tg_cfs_schedulable_down d) tg_nop (down-SameLimits d s)
        (λ g t h. h) root F s (λ x. refl)
