-- ===== src/Group/Unified.antt =====
-- `tg_set_cfs_bandwidth` of kernel/sched/core.c on the unified hierarchy (cgroup 2), where
-- `tg_cfs_schedulable_down` takes the minimum.
use lottery_scheduler.Base.{
  ℕ, suc, ◌*◌, ◌/◌, ◌%◌, ◌^◌, ◌≤◌, ◌<◌, ◌≡◌, refl, ap, ◌∙◌, Bool, true, false, Option, none, some,
  arith, ◌==◌, Bool-cases, ◌⊎◌, inl, inr, ==_iff, subst, u64_mod,
}
use lottery_scheduler.Group.Walk.{Answer, and_then}
use lottery_scheduler.Group.Limits.{
  CfsBandwidth, CfsSchedulableData, quota_under, runtime_inf, max_cfs_runtime, min_cfs_quota_period,
  nsec_per_usec, bw_shift, s64_min, ratio, to_ratio, tg_get_cfs_period, tg_get_cfs_quota,
  check_bandwidth, schedulable_data,
}
use lottery_scheduler.Group.Bandwidth.{
  Hierarchy, Groups, tg_cfs_schedulable_down, store_quota, quota_below, tg_nop,
  tg_set_cfs_bandwidth,
}
use lottery_scheduler.Group.Forest.{Forest, empty, tree, visit, visit_tree, labels, has}
use lottery_scheduler.Group.Walked.{Obeyed, hierarchical, Inherited}
use lottery_scheduler.Group.Changed.{IsChanged, own_ratio}
use lottery_scheduler.Group.Accepted.{
  IsHierarchy, IsGranted, IsAnswer, answer, answer-IsAnswer, tg_set_cfs_bandwidth-answer,
}

-- No limit, or one within the bounds of `tg_set_cfs_bandwidth`.
abbrev pub IsLimit : (period quota : ℕ) → Type 0
IsLimit period quota =
    (quota ≡ runtime_inf) ⊎ ((quota ≤ max_cfs_runtime) × (min_cfs_quota_period ≤ period))

check_bandwidth-IsLimit : (root tg p q b : ℕ) → check_bandwidth root tg p q b ≡ none → IsLimit p q
unfolding check_bandwidth
check_bandwidth-IsLimit root tg p q b h = elim (Bool-cases (q == runtime_inf)) [
  | inl unlimited ↦ inl ((==_iff q runtime_inf).0 unlimited)
  | inr limited ↦ inr (ground (arith, h, limited), ground (arith, h))
]

-- As an `s64`, the word is -1 or not negative.
abbrev IsSmall : ℕ → Type 0
IsSmall q = (q ≡ runtime_inf) ⊎ (q < 2 ^ 63)

half : (x d : ℕ) → 2 ≤ d → x < 2 ^ 64 → x / d < 2 ^ 63
half x d h lt = grind arith

ratio-IsSmall :
    (c : CfsBandwidth)
    → IsLimit c.period c.quota
    → IsSmall (ratio (tg_get_cfs_period c) (tg_get_cfs_quota c))
unfolding ratio to_ratio tg_get_cfs_period tg_get_cfs_quota
ratio-IsSmall c (inl e) = inl (ground (arith, e))
ratio-IsSmall c (inr (le, ge)) = ground (
  arith,
  le,
  ge,
  half (c.quota / nsec_per_usec * 2 ^ bw_shift % u64_mod) (c.period / nsec_per_usec)
      (omega (arith, ge)) (omega arith),
)

min_inf : (q : ℕ) → IsSmall q → s64_min q runtime_inf ≡ runtime_inf
min_inf q (inl e) = ground (arith, e)
min_inf q (inr lt) = ground (arith, lt)

inherited :
    (on_dfl : Bool) (q h : ℕ)
    → on_dfl ≡ true
    → IsSmall q
    → Inherited on_dfl q runtime_inf h
    → h ≡ runtime_inf
inherited true q h e small i = i ∙ min_inf q small
inherited false q h e small i = ground (arith, e)

and_then-Passes {ℓ} :
    {A : Type ℓ} (a : Answer A) (next : A → Answer A)
    → a.0 ≡ none
    → ((t : A) → (next t).0 ≡ none)
    → (and_then a (λ e t. (e, t)) next).0 ≡ none
unfolding and_then
and_then-Passes (none, t) next e h = h t
and_then-Passes (some x, t) next e h = e

module _ {ℓ} {A : Type ℓ} (enter exit : ℕ → A → Answer A) where
  -- No visitor answers an error.
  abbrev Passes : (ℕ → A → Answer A) → Type ℓ
  Passes f = (g : ℕ) (s : A) → (f g s).0 ≡ none

  visit-Passes : Passes enter → Passes exit → (F : Forest) (s : A) → (visit enter exit F s).0 ≡ none
  unfolding visit
  visit-Passes i o empty s = refl
  visit-Passes i o (tree g a b) s = and_then-Passes (enter g s) _ (i g s) (λ t.
      and_then-Passes (visit enter exit a t) _ (visit-Passes i o a t)
        (λ u. and_then-Passes (exit g u) _ (o g u) (λ v. visit-Passes i o b v)))

  visit_tree-Passes :
      Passes enter
      → Passes exit
      → (root : ℕ) (F : Forest) (s : A) → (visit_tree enter exit root F s).0 ≡ none
  unfolding visit_tree
  visit_tree-Passes i o root F s =
      and_then-Passes (enter root s) _ (i root s)
        (λ t. and_then-Passes (visit enter exit F t) _ (visit-Passes i o F t) (λ u. o root u))

module _ {H : Hierarchy} where
  store-Passes :
      (d : CfsSchedulableData) (g : ℕ) (s : Groups H) (o : Option ℕ)
      → H.on_dfl ≡ true
      → (store_quota s g (quota_below d g o s)).0 ≡ none
  unfolding quota_below quota_under store_quota
  store-Passes d g s none dfl = refl
  store-Passes d g s (some p) dfl = rw dfl refl

  down-Passes :
      (d : CfsSchedulableData)
      → H.on_dfl ≡ true
      → (g : ℕ) (s : Groups H) → (tg_cfs_schedulable_down d g s).0 ≡ none
  unfolding tg_cfs_schedulable_down
  down-Passes d dfl g s = store-Passes d g s (H.links.parent g) dfl

  Obeyed-inf :
      (q : ℕ → ℕ) (p : ℕ) (F : Forest) (s : Groups H)
      → H.on_dfl ≡ true
      → ((x : ℕ) → IsSmall (q x))
      → hierarchical s p ≡ runtime_inf
      → Obeyed q p F s
      → (x : ℕ) → has F x ≡ true
      → hierarchical s x ≡ runtime_inf
  Obeyed-inf q p empty s dfl small top o x h = ground (arith, h)
  Obeyed-inf q p (tree g a b) s dfl small top (i, below, after) x h =
      let at_g : hierarchical s g ≡ runtime_inf =
        inherited H.on_dfl (q g) (hierarchical s g) dfl (small g)
          (subst (λ v. Inherited H.on_dfl (q g) v (hierarchical s g)) top i) in
      elim (Bool-cases (x == g)) [
        | inl this ↦ ap (hierarchical s) ((==_iff x g).0 this) ∙ at_g
        | inr other ↦ elim (Bool-cases (has a x)) [
          | inl inside ↦ Obeyed-inf q g a s dfl small at_g below x inside
          | inr beside ↦ Obeyed-inf q p b s dfl small top after x (ground (arith, h, other, beside))
        ]
      ]

  own_ratio-IsSmall :
      (s : Groups H) (x : ℕ)
      → IsLimit (s.cfs_bandwidth x).period (s.cfs_bandwidth x).quota
      → IsSmall (own_ratio s x)
  unfolding own_ratio
  own_ratio-IsSmall s x l = ratio-IsSmall (s.cfs_bandwidth x) l

  granted :
      (cs : Forest) (tg p q b : ℕ) (s : Groups H) (a : Answer (Groups H))
      → a.0 ≡ none
      → IsAnswer cs tg p q b s a
      → IsGranted cs tg p q b s a.1
  granted cs tg p q b s (none, t) e h = h
  granted cs tg p q b s (some x, t) e h = ground (arith, e)

  answer-Passes :
      (cs : Forest) (tg p q b : ℕ) (s : Groups H)
      → H.on_dfl ≡ true
      → (answer cs tg p q b s).0 ≡ none
  unfolding tg_nop
  answer-Passes cs tg p q b s dfl =
      let down = tg_cfs_schedulable_down (schedulable_data tg p q) in
      and_then-Passes (visit_tree down tg_nop H.root_task_group cs s) _
        (visit_tree-Passes down tg_nop (down-Passes (schedulable_data tg p q) dfl) (λ g u. refl)
          H.root_task_group cs s)
        (λ t. refl)

  changed-IsLimit :
      (tg p q b : ℕ) (s t : Groups H)
      → IsChanged tg p q b s t
      → IsLimit p q
      → ((x : ℕ) → IsLimit (s.cfs_bandwidth x).period (s.cfs_bandwidth x).quota)
      → (x : ℕ) → IsLimit (t.cfs_bandwidth x).period (t.cfs_bandwidth x).quota
  changed-IsLimit tg p q b s t changed new old x =
      rw (ap (λ l. l.0) (changed x), ap (λ l. l.1) (changed x))
        (elim (Bool-cases (x == tg)) [ inl this ↦ rw this new | inr other ↦ rw other (old x) ])

  -- On the unified hierarchy, with limits of all groups within the bounds, tg_set_cfs_bandwidth answers
  -- 0 unless it refuses the new limits themselves, and then the hierarchical quota of every group below
  -- the root is -1.
  pub tg_set_cfs_bandwidth-unified :
      (cs : Forest) (tg p q b : ℕ) (s : Groups H)
      → IsHierarchy H cs
      → H.on_dfl ≡ true
      → ((x : ℕ) → IsLimit (s.cfs_bandwidth x).period (s.cfs_bandwidth x).quota)
      → check_bandwidth H.root_task_group tg p q b ≡ none
      → (t : Groups H) × (tg_set_cfs_bandwidth (suc (labels cs)) tg p q b s ≡ some (none, t))
        × ((x : ℕ) → has cs x ≡ true → hierarchical t x ≡ runtime_inf)
  tg_set_cfs_bandwidth-unified cs tg p q b s h dfl old fine =
      let a = answer cs tg p q b s in
      let (schedulable, changed) =
        granted cs tg p q b s a (answer-Passes cs tg p q b s dfl)
          (answer-IsAnswer cs tg p q b s h) in
      let limit =
        changed-IsLimit tg p q b s a.1 changed
          (check_bandwidth-IsLimit H.root_task_group tg p q b fine) old in
      (
        a.1,
        tg_set_cfs_bandwidth-answer cs tg p q b s h fine
            ∙ ap (λ o. some (o, a.1)) (answer-Passes cs tg p q b s dfl),
        Obeyed-inf (own_ratio a.1) H.root_task_group cs a.1 dfl
            (λ x. own_ratio-IsSmall a.1 x (limit x)) schedulable.1 schedulable.0,
      )
