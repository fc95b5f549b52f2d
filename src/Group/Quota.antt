-- ===== src/Group/Quota.antt =====
-- `tg_set_cfs_quota`, `tg_set_cfs_period` and `tg_set_cfs_burst` of kernel/sched/core.c, which take
-- microseconds.
use lottery_scheduler.Base.{ℕ, ◌-◌, ◌*◌, ◌/◌, Option, some, leb, negative64, if◌then◌else◌, u64_mod}
use lottery_scheduler.Machine.{einval}
use lottery_scheduler.Group.Walk.{Answer}
use lottery_scheduler.Group.Limits.{runtime_inf, nsec_per_usec}
use lottery_scheduler.Group.Bandwidth.{Hierarchy, Groups, tg_set_cfs_bandwidth}

-- `U64_MAX / NSEC_PER_USEC`
abbrev pub max_usec : ℕ
max_usec = (u64_mod - 1) / nsec_per_usec

module _ {H : Hierarchy} where
  -- The argument is a `long`.
  unfoldable pub tg_set_cfs_quota :
      (fuel tg cfs_quota_us : ℕ) → Groups H → Option (Answer (Groups H))
  unfolding tg_set_cfs_bandwidth
  tg_set_cfs_quota fuel tg us s =
      let b = s.cfs_bandwidth tg in
      if negative64 us
      then tg_set_cfs_bandwidth fuel tg b.period runtime_inf b.burst s
      else if leb us max_usec
      then tg_set_cfs_bandwidth fuel tg b.period (us * nsec_per_usec) b.burst s
      else some (some einval, s)

  unfoldable pub tg_set_cfs_period :
      (fuel tg cfs_period_us : ℕ) → Groups H → Option (Answer (Groups H))
  unfolding tg_set_cfs_bandwidth
  tg_set_cfs_period fuel tg us s =
      let b = s.cfs_bandwidth tg in
      if leb us max_usec
      then tg_set_cfs_bandwidth fuel tg (us * nsec_per_usec) b.quota b.burst s
      else some (some einval, s)

  unfoldable pub tg_set_cfs_burst :
      (fuel tg cfs_burst_us : ℕ) → Groups H → Option (Answer (Groups H))
  unfolding tg_set_cfs_bandwidth
  tg_set_cfs_burst fuel tg us s =
      let b = s.cfs_bandwidth tg in
      if leb us max_usec
      then tg_set_cfs_bandwidth fuel tg b.period b.quota (us * nsec_per_usec) s
      else some (some einval, s)
