-- ===== src/Group/ReadBack.antt =====
-- `tg_set_cfs_quota`, `tg_set_cfs_period` and `tg_set_cfs_burst` of kernel/sched/core.c against the
-- functions that read the limits.
use lottery_scheduler.Base.{
  none, ℕ, suc, ◌*◌, ◌/◌, ◌≡◌, refl, ap, ◌∙◌, Bool, true, false, Option, some, arith, ◌==◌,
  if◌then◌else◌, leb, negative64,
}
use lottery_scheduler.Machine.{einval}
use lottery_scheduler.Group.Walk.{Answer}
use lottery_scheduler.Group.Forest.{Forest, labels}
use lottery_scheduler.Group.Limits.{
  runtime_inf, nsec_per_usec, tg_get_cfs_quota, tg_get_cfs_period, tg_get_cfs_burst,
}
use lottery_scheduler.Group.Bandwidth.{Hierarchy, Groups, tg_set_cfs_bandwidth}
use lottery_scheduler.Group.Quota.{max_usec, tg_set_cfs_quota, tg_set_cfs_period, tg_set_cfs_burst}
use lottery_scheduler.Group.Walked.{After}
use lottery_scheduler.Group.Changed.{limits}
use lottery_scheduler.Group.Accepted.{
  IsHierarchy, IsGranted, IsAnswer, tg_set_cfs_bandwidth-IsAnswer,
}

same : (g : ℕ) → (g == g) ≡ true
same g = ground arith

module _ {H : Hierarchy} where
  -- The call ends, and this holds after an answer of 0.
  abbrev pub Ends : (Groups H → Type 0) → Option (Answer (Groups H)) → Type 0
  Ends P o = (a : Answer (Groups H)) × (o ≡ some a) × After P a

  Ends-if :
      (P : Groups H → Type 0) (b : Bool) {x y : Option (Answer (Groups H))}
      → (b ≡ true → Ends P x)
      → (b ≡ false → Ends P y)
      → Ends P (if b then x else y)
  Ends-if P true f g = f refl
  Ends-if P false f g = g refl

  -- The limits of `tg` as user space reads them: period, quota and burst.
  abbrev pub ReadsAs : (tg period quota burst : ℕ) → Groups H → Type 0
  ReadsAs tg p q b t =
      (tg_get_cfs_period (t.cfs_bandwidth tg) ≡ p)
      × (tg_get_cfs_quota (t.cfs_bandwidth tg) ≡ q)
      × (tg_get_cfs_burst (t.cfs_bandwidth tg) ≡ b)

  answered :
      (P : Groups H → Type 0) (cs : Forest) (tg p q b : ℕ) (s : Groups H) (a : Answer (Groups H))
      → IsAnswer cs tg p q b s a
      → ((t : Groups H) → IsGranted cs tg p q b s t → P t)
      → After P a
  answered P cs tg p q b s (none, t) h f = f t h
  answered P cs tg p q b s (some e, t) h f = tt

module _ {H : Hierarchy} (cs : Forest) (h : IsHierarchy H cs) where
  set-Ends :
      (P : Groups H → Type 0) (tg p q b : ℕ) (s : Groups H)
      → ((t : Groups H) → limits (t.cfs_bandwidth tg) ≡ (p, q, b) → P t)
      → Ends P (tg_set_cfs_bandwidth (suc (labels cs)) tg p q b s)
  set-Ends P tg p q b s f =
      let (a, e, g) = tg_set_cfs_bandwidth-IsAnswer cs tg p q b s h in
      (a, e, answered P cs tg p q b s a g (λ t granted. f t (granted.1 tg ∙ rw (same tg) refl)))

  -- On a tree of groups, tg_set_cfs_quota ends with an answer. If it is 0, the quota reads as the one
  -- that was written, -1 for any negative number, and period and burst read as before.
  pub tg_set_cfs_quota-get :
      (tg us : ℕ) (s : Groups H)
      → Ends
          (ReadsAs tg
            (tg_get_cfs_period (s.cfs_bandwidth tg))
            (if negative64 us then runtime_inf else us)
            (tg_get_cfs_burst (s.cfs_bandwidth tg)))
          (tg_set_cfs_quota (suc (labels cs)) tg us s)
  unfolding tg_set_cfs_quota tg_get_cfs_period tg_get_cfs_quota tg_get_cfs_burst
  tg_set_cfs_quota-get tg us s =
      let c = s.cfs_bandwidth tg in
      let P =
        ReadsAs tg (tg_get_cfs_period c) (if negative64 us then runtime_inf else us)
          (tg_get_cfs_burst c) in
      Ends-if P (negative64 us)
        (λ unlimited. set-Ends P tg c.period runtime_inf c.burst s (λ t e. (
          ap (λ l. l.0 / nsec_per_usec) e,
          ground (arith, unlimited, ap (λ l. l.1) e),
          ap (λ l. l.2 / nsec_per_usec) e,
        )))
        (λ limit.
          Ends-if P (leb us max_usec)
            (λ le. set-Ends P tg c.period (us * nsec_per_usec) c.burst s (λ t e. (
              ap (λ l. l.0 / nsec_per_usec) e,
              ground (arith, limit, ap (λ l. l.1) e),
              ap (λ l. l.2 / nsec_per_usec) e,
            )))
            (λ more. ((some einval, s), refl, tt)))

  pub tg_set_cfs_period-get :
      (tg us : ℕ) (s : Groups H)
      → Ends
          (ReadsAs tg us
            (tg_get_cfs_quota (s.cfs_bandwidth tg))
            (tg_get_cfs_burst (s.cfs_bandwidth tg)))
          (tg_set_cfs_period (suc (labels cs)) tg us s)
  unfolding tg_set_cfs_period tg_get_cfs_period tg_get_cfs_quota tg_get_cfs_burst
  tg_set_cfs_period-get tg us s =
      let c = s.cfs_bandwidth tg in
      let P = ReadsAs tg us (tg_get_cfs_quota c) (tg_get_cfs_burst c) in
      Ends-if P (leb us max_usec)
        (λ le. set-Ends P tg (us * nsec_per_usec) c.quota c.burst s (λ t e. (
          ground (arith, ap (λ l. l.0) e),
          ap (λ l. if l.1 == runtime_inf then runtime_inf else l.1 / nsec_per_usec) e,
          ap (λ l. l.2 / nsec_per_usec) e,
        )))
        (λ more. ((some einval, s), refl, tt))

  pub tg_set_cfs_burst-get :
      (tg us : ℕ) (s : Groups H)
      → Ends
          (ReadsAs tg
            (tg_get_cfs_period (s.cfs_bandwidth tg))
            (tg_get_cfs_quota (s.cfs_bandwidth tg))
            us)
          (tg_set_cfs_burst (suc (labels cs)) tg us s)
  unfolding tg_set_cfs_burst tg_get_cfs_period tg_get_cfs_quota tg_get_cfs_burst
  tg_set_cfs_burst-get tg us s =
      let c = s.cfs_bandwidth tg in
      let P = ReadsAs tg (tg_get_cfs_period c) (tg_get_cfs_quota c) us in
      Ends-if P (leb us max_usec)
        (λ le. set-Ends P tg c.period c.quota (us * nsec_per_usec) s (λ t e. (
          ap (λ l. l.0 / nsec_per_usec) e,
          ap (λ l. if l.1 == runtime_inf then runtime_inf else l.1 / nsec_per_usec) e,
          ground (arith, ap (λ l. l.2) e),
        )))
        (λ more. ((some einval, s), refl, tt))
