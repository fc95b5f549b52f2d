-- ===== src/Group/Walked.antt =====
-- What a walk with `tg_cfs_schedulable_down` of kernel/sched/core.c leaves, at each group.
use lottery_scheduler.Base.{
  ℕ, ◌≡◌, refl, ◌∙◌, Bool, true, false, ◌&&◌, ◌||◌, not, Option, none, some, arith, ◌==◌, ◌⊎◌, inl,
  inr, if◌then◌else◌,
}
use lottery_scheduler.Group.Walk.{Answer, and_then}
use lottery_scheduler.Group.Limits.{
  CfsSchedulableData, runtime_inf, s64_ltb, s64_min, normalize_cfs_quota, quota_under,
  tg_get_cfs_period, tg_get_cfs_quota,
}
use lottery_scheduler.Group.Bandwidth.{
  Hierarchy, Groups, quota_below, store_quota, set_hierarchical_quota, tg_cfs_schedulable_down,
}
use lottery_scheduler.Group.Forest.{Forest, empty, tree, has}

-- A statement on the state after the answer 0.
abbrev pub After {ℓ κ} : {A : Type ℓ} → (A → Type κ) → Answer A → Type κ
After P (none, t) = P t
After P (some e, t) = Unit

module _ {ℓ} {A : Type ℓ} where
  pub After-and_then {κ} :
      (P Q : A → Type κ) (a : Answer A) (next : A → Answer A)
      → After P a
      → ((t : A) → P t → After Q (next t))
      → After Q (and_then a (λ e t. (e, t)) next)
  unfolding and_then
  After-and_then P Q (none, t) next h step = step t h
  After-and_then P Q (some e, t) next h step = tt

  pub After-map {κ} :
      (P Q : A → Type κ) (a : Answer A) → After P a → ((t : A) → P t → Q t) → After Q a
  After-map P Q (none, t) h f = f t h
  After-map P Q (some e, t) h f = tt

-- What `tg_cfs_schedulable_down` makes of the ratio `q` of a group and the hierarchical quota `hp` of its
-- parent.
abbrev pub Inherited : (on_dfl : Bool) (q hp h : ℕ) → Type 0
Inherited true q hp h = h ≡ s64_min q hp
Inherited false q hp h =
    (((q == runtime_inf) ≡ true) × (h ≡ hp))
    ⊎ (((q == runtime_inf) ≡ false) × (h ≡ q) × ((not (hp == runtime_inf) && s64_ltb hp q) ≡ false))

quota_cases :
    (unlimited more : Bool) (q hp v : ℕ)
    → (if unlimited then some hp else if more then none else some q) ≡ some v
    → ((unlimited ≡ true) × (v ≡ hp)) ⊎ ((unlimited ≡ false) × (v ≡ q) × (more ≡ false))
quota_cases true more q hp v e = inl (refl, ground (arith, e))
quota_cases false true q hp v e = ground (arith, e)
quota_cases false false q hp v e = inr (refl, ground (arith, e), refl)

quota_under-Inherited :
    (on_dfl : Bool) (q hp v : ℕ) → quota_under on_dfl q hp ≡ some v → Inherited on_dfl q hp v
unfolding quota_under
quota_under-Inherited true q hp v e = ground (arith, e)
quota_under-Inherited false q hp v e =
    quota_cases (q == runtime_inf) (not (hp == runtime_inf) && s64_ltb hp q) q hp v e

module _ {H : Hierarchy} where
  abbrev pub hierarchical : Groups H → ℕ → ℕ
  hierarchical s x = (s.cfs_bandwidth x).hierarchical_quota

  -- The two states agree but for the hierarchical quotas of these groups.
  pub record Walked (at : ℕ → Bool) (s t : Groups H) : Type 0 where
    pub period : (x : ℕ) → (t.cfs_bandwidth x).period ≡ (s.cfs_bandwidth x).period
    pub quota : (x : ℕ) → (t.cfs_bandwidth x).quota ≡ (s.cfs_bandwidth x).quota
    pub burst : (x : ℕ) → (t.cfs_bandwidth x).burst ≡ (s.cfs_bandwidth x).burst
    pub kept : (x : ℕ) → at x ≡ false → hierarchical t x ≡ hierarchical s x

  pub Walked-refl : (s : Groups H) → Walked (λ x. false) s s
  Walked-refl s = record {
    period = λ x. refl;
    quota = λ x. refl;
    burst = λ x. refl;
    kept = λ x no. refl;
  }

  pub Walked-trans :
      {at bt : ℕ → Bool} {s t u : Groups H}
      → Walked at s t
      → Walked bt t u
      → Walked (λ x. at x || bt x) s u
  Walked-trans v w = record {
    period = λ x. w.period x ∙ v.period x;
    quota = λ x. w.quota x ∙ v.quota x;
    burst = λ x. w.burst x ∙ v.burst x;
    kept = λ x no. ground (arith, no, v.kept x, w.kept x);
  }

  -- The ratios of the groups.
  abbrev pub Reads : CfsSchedulableData → (ℕ → ℕ) → Groups H → Type 0
  Reads d q s = (x : ℕ) → normalize_cfs_quota x (s.cfs_bandwidth x) d ≡ q x

  pub Walked-Reads :
      {at : ℕ → Bool} {s t : Groups H} (d : CfsSchedulableData) (q : ℕ → ℕ)
      → Walked at s t
      → Reads d q s
      → Reads d q t
  unfolding normalize_cfs_quota tg_get_cfs_period tg_get_cfs_quota
  Walked-Reads d q w r x = rw (w.period x, w.quota x) (r x)

  pub Walked-set :
      (s : Groups H) (tg v : ℕ) → Walked (λ x. x == tg) s (set_hierarchical_quota s tg v)
  unfolding set_hierarchical_quota
  Walked-set s tg v = record {
    period = λ x. ground arith;
    quota = λ x. ground arith;
    burst = λ x. ground arith;
    kept = λ x no. ground (arith, no);
  }

  pub set-at : (s : Groups H) (tg v : ℕ) → hierarchical (set_hierarchical_quota s tg v) tg ≡ v
  unfolding set_hierarchical_quota
  set-at s tg v = ground arith

  -- The group `g` after its visit, `p` its parent.
  abbrev pub Visited : (ℕ → ℕ) → Groups H → (p g : ℕ) → Groups H → Type 0
  Visited q s p g t =
      Walked (λ x. x == g) s t × Inherited H.on_dfl (q g) (hierarchical s p) (hierarchical t g)

  set-Visited :
      (q : ℕ → ℕ) (s : Groups H) (p g v : ℕ)
      → Inherited H.on_dfl (q g) (hierarchical s p) v
      → Visited q s p g (set_hierarchical_quota s g v)
  set-Visited q s p g v i = (Walked-set s g v, rw (set-at s g v) i)

  store_quota-Visited :
      (q : ℕ → ℕ) (s : Groups H) (p g : ℕ) (o : Option ℕ)
      → ((v : ℕ) → o ≡ some v → Inherited H.on_dfl (q g) (hierarchical s p) v)
      → After (Visited q s p g) (store_quota s g o)
  unfolding store_quota
  store_quota-Visited q s p g none h = tt
  store_quota-Visited q s p g (some v) h = set-Visited q s p g v (h v refl)

  pub down-Visited :
      (d : CfsSchedulableData) (q : ℕ → ℕ) (s : Groups H) (p g : ℕ)
      → H.links.parent g ≡ some p
      → Reads d q s
      → After (Visited q s p g) (tg_cfs_schedulable_down d g s)
  unfolding tg_cfs_schedulable_down quota_below
  down-Visited d q s p g par r =
      rw (par, r g)
        (store_quota-Visited q s p g _ (quota_under-Inherited H.on_dfl (q g) (hierarchical s p)))

  -- Every group under its parent, from `p` down.
  abbrev pub Obeyed : (ℕ → ℕ) → (p : ℕ) → Forest → Groups H → Type 0
  Obeyed q p empty t = Unit
  Obeyed q p (tree g children siblings) t =
      Inherited H.on_dfl (q g) (hierarchical t p) (hierarchical t g)
      × Obeyed q g children t
      × Obeyed q p siblings t

  -- The other groups do not matter.
  pub Obeyed-same :
      (q : ℕ → ℕ) (p : ℕ) (F : Forest) (s t : Groups H)
      → ((x : ℕ) → has F x ≡ true → hierarchical t x ≡ hierarchical s x)
      → hierarchical t p ≡ hierarchical s p
      → Obeyed q p F s
      → Obeyed q p F t
  Obeyed-same q p empty s t same top o = tt
  Obeyed-same q p (tree g children siblings) s t same top (i, below, after) =
      let at_g = same g (ground arith) in
      (
        rw (at_g, top) i,
        Obeyed-same q g children s t (λ x h. same x (ground (arith, h))) at_g below,
        Obeyed-same q p siblings s t (λ x h. same x (ground (arith, h))) top after,
      )

  pub Obeyed-ratio :
      (q q' : ℕ → ℕ) (p : ℕ) (F : Forest) (s : Groups H)
      → ((x : ℕ) → q' x ≡ q x)
      → Obeyed q p F s
      → Obeyed q' p F s
  Obeyed-ratio q q' p empty s same o = tt
  Obeyed-ratio q q' p (tree g children siblings) s same (i, below, after) = (
    rw (same g) i,
    Obeyed-ratio q q' g children s same below,
    Obeyed-ratio q q' p siblings s same after,
  )
