-- ===== src/Group/Changed.antt =====
-- What `tg_set_cfs_bandwidth` of kernel/sched/core.c changes in the limits of the groups.
use lottery_scheduler.Base.{
  ℕ, ◌≡◌, refl, sym, ap, ◌∙◌, Bool, true, false, ◌&&◌, not, List, [], ◌∷◌, arith, ◌==◌,
  if◌then◌else◌, write_at, Bool-cases, inl, inr, ==_iff,
}
use lottery_scheduler.Group.Limits.{
  CfsBandwidth, schedulable_data, runtime_inf, ratio, tg_get_cfs_period, tg_get_cfs_quota,
  normalize_cfs_quota,
}
use lottery_scheduler.Group.Bandwidth.{
  Hierarchy, Groups, change_bandwidth, write_bandwidth, reset_online, reset_cfs_rq,
}
use lottery_scheduler.Group.Walked.{Walked, hierarchical}

-- The group with its new limits.
abbrev pub limited : CfsBandwidth → (period quota burst : ℕ) → CfsBandwidth
limited c p q b = record c { period = p; quota = q; burst = b }

-- The limits without the hierarchical quota.
abbrev pub limits : CfsBandwidth → ℕ × ℕ × ℕ
limits c = (c.period, c.quota, c.burst)

data_at_limited :
    (tg p q b : ℕ) (c : CfsBandwidth)
    → ratio (schedulable_data tg p q).period (schedulable_data tg p q).quota
      ≡ ratio (tg_get_cfs_period (limited c p q b)) (tg_get_cfs_quota (limited c p q b))
unfolding schedulable_data tg_get_cfs_period tg_get_cfs_quota ratio
data_at_limited tg p q b c = elim (Bool-cases (q == runtime_inf)) [
  | inl unlimited ↦ ground (arith, unlimited)
  | inr limit ↦ rw limit refl
]

data_tg : (tg p q : ℕ) → (schedulable_data tg p q).tg ≡ tg
unfolding schedulable_data
data_tg tg p q = ground arith

module _ {H : Hierarchy} where
  -- The ratio of quota and period that a group has itself.
  unfoldable pub own_ratio : Groups H → ℕ → ℕ
  own_ratio s x =
      ratio (tg_get_cfs_period (s.cfs_bandwidth x)) (tg_get_cfs_quota (s.cfs_bandwidth x))

  reset_online-cfs_bandwidth :
      (tg : ℕ) (enabled : Bool) (cpus : List ℕ) (s : Groups H)
      → (reset_online tg enabled cpus s).cfs_bandwidth ≡ s.cfs_bandwidth
  unfolding reset_online reset_cfs_rq
  reset_online-cfs_bandwidth tg enabled [] s = refl
  reset_online-cfs_bandwidth tg enabled (cpu ∷ cpus) s =
      reset_online-cfs_bandwidth tg enabled cpus (reset_cfs_rq tg enabled cpu s)

  if-cfs_bandwidth :
      (b : Bool) (s t : Groups H)
      → t.cfs_bandwidth ≡ s.cfs_bandwidth
      → (if b then t else s).cfs_bandwidth ≡ s.cfs_bandwidth
  if-cfs_bandwidth true s t h = h
  if-cfs_bandwidth false s t h = refl

  pub change_bandwidth-at :
      (tg p q b : ℕ) (s : Groups H) (x : ℕ)
      → (change_bandwidth tg p q b s).cfs_bandwidth x
        ≡ (if x == tg then limited (s.cfs_bandwidth tg) p q b else s.cfs_bandwidth x)
  unfolding change_bandwidth write_bandwidth write_at
  change_bandwidth-at tg p q b s x =
      let enabled = not (q == runtime_inf) in
      let was = not ((s.cfs_bandwidth tg).quota == runtime_inf) in
      let t0 = record s { ext = H.cfs_bandwidth_usage_inc s.ext } in
      let t = if enabled && not was then t0 else s in
      let u = reset_online tg enabled H.online (write_bandwidth tg p q b t) in
      ap (λ f. f x)
        (if-cfs_bandwidth (was && not enabled) u
            (record u { ext = H.cfs_bandwidth_usage_dec u.ext }) refl
          ∙ reset_online-cfs_bandwidth tg enabled H.online (write_bandwidth tg p q b t))
      ∙ ap (λ f. write_at f tg (limited (f tg) p q b) x)
          (if-cfs_bandwidth (enabled && not was) s t0 refl)

  -- A check with new limits for `tg` reads what each group has once they are written.
  pub normalize-own :
      (tg p q b : ℕ) (s : Groups H) (x : ℕ)
      → normalize_cfs_quota x (s.cfs_bandwidth x) (schedulable_data tg p q)
        ≡ own_ratio (change_bandwidth tg p q b s) x
  unfolding normalize_cfs_quota own_ratio
  normalize-own tg p q b s x =
      rw (change_bandwidth-at tg p q b s x, data_tg tg p q)
        (elim (Bool-cases (x == tg)) [
          | inl this ↦ rw this (data_at_limited tg p q b (s.cfs_bandwidth tg))
          | inr other ↦ rw other refl
        ])

  pub change_bandwidth-hierarchical :
      (tg p q b : ℕ) (s : Groups H) (x : ℕ)
      → hierarchical (change_bandwidth tg p q b s) x ≡ hierarchical s x
  change_bandwidth-hierarchical tg p q b s x =
      ap (λ c. c.hierarchical_quota) (change_bandwidth-at tg p q b s x)
      ∙ elim (Bool-cases (x == tg)) [
        | inl this ↦ rw this (ap (hierarchical s) (sym ((==_iff x tg).0 this)))
        | inr other ↦ rw other refl
      ]

  -- One group has the new limits, the others have theirs.
  abbrev pub IsChanged : (tg period quota burst : ℕ) → (s t : Groups H) → Type 0
  IsChanged tg p q b s t =
      (x : ℕ)
      → limits (t.cfs_bandwidth x)
        ≡ limits (if x == tg then limited (s.cfs_bandwidth tg) p q b else s.cfs_bandwidth x)

  pub change-IsChanged :
      (tg p q b : ℕ) (s t : Groups H) {at : ℕ → Bool}
      → Walked at s t
      → IsChanged tg p q b s (change_bandwidth tg p q b t)
  change-IsChanged tg p q b s t w x =
      ap limits (change_bandwidth-at tg p q b t x) ∙ elim (Bool-cases (x == tg)) [
        | inl this ↦ rw this refl
        | inr other ↦ rw other (ground (arith, w.period x, w.quota x, w.burst x))
      ]
