-- ===== src/Core/Boosted.antt =====
-- Priority inheritance, `rt_mutex_setprio` of kernel/sched/core.c, keeps the invariant of the core.
use Prim.Native.Nat.{bit_or}
use lottery_scheduler.Base.{
  ℕ, ◌≡◌, Bool, true, false, Option, none, some, ◌&&◌, not, arith, ◌==◌, if◌then◌else◌, ℤ, eqb_ℤ,
}
use lottery_scheduler.Task.{ltr_policy, write}
use lottery_scheduler.Machine.{Kernel, State, put_task}
use lottery_scheduler.Core.Clock.{update_rq_clock}
use lottery_scheduler.Core.Hooks.{is_lottery}
use lottery_scheduler.Core.Prio.{rt_effective_prio_of, setscheduler_prio, class_of}
use lottery_scheduler.Core.Boost.{
  same_task, set_pi_se, clear_rt_timeout, boosts, boost_params, boosted, boost_requeue,
  set_pi_top_task, rt_mutex_setprio,
}
use lottery_scheduler.Core.Frame.{
  Frame, Frame-refl, Frame-trans, Frame-if, Frame-if_pair, Frame-put_task, Frame-update_rq_clock,
}
use lottery_scheduler.Core.Rewrites.{Rewrites}
use lottery_scheduler.Core.System.{IsSystem, Frame-IsSystem}
use lottery_scheduler.Core.PolicyChange.{requeue_around-IsSystem}

module _ {K : Kernel} where
  Frame-set_pi_se : (s : State K) (p q : ℕ) → Frame s (set_pi_se s p q)
  unfolding set_pi_se
  Frame-set_pi_se s p q = Frame-put_task s p _ (ground arith)

  Frame-clear_rt_timeout : (s : State K) (p : ℕ) → Frame s (clear_rt_timeout s p)
  unfolding clear_rt_timeout
  Frame-clear_rt_timeout s p = Frame-put_task s p _ (ground arith)

  pub Frame-set_pi_top_task : (s : State K) (p : ℕ) (o : Option ℕ) → Frame s (set_pi_top_task s p o)
  unfolding set_pi_top_task
  Frame-set_pi_top_task s p o = Frame-put_task s p _ (ground arith)

  pub Frame-boost_params :
      (s : State K) (p : ℕ) (o : Option ℕ) (oldprio prio : ℤ) (flags : ℕ)
      → Frame s (boost_params s p o oldprio prio flags).1
  unfolding boost_params
  Frame-boost_params s p o oldprio prio flags =
      let unboosted = Frame-if (K.dl_prio oldprio) (Frame-set_pi_se s p p) (Frame-refl s) in
      Frame-if_pair (K.dl_prio prio) _ _ (by_task o) (
        Frame-if_pair (K.rt_prio prio) _ _ unboosted (
          Frame-if (K.rt_prio oldprio) (Frame-trans unboosted (Frame-clear_rt_timeout _ p))
            unboosted))
    where
      by_task :
          (o : Option ℕ)
          → Frame s
              (elim o as (λ _. ℕ × State K) [
                | none ↦ (flags, set_pi_se s p p)
                | some q ↦
                    if boosts s p q
                    then (bit_or flags 0x20, set_pi_se s p (s.tasks q).dl.pi_se)
                    else (flags, set_pi_se s p p)
              ]).1
      by_task none = Frame-set_pi_se s p p
      by_task (some q) =
          Frame-if_pair (boosts s p q) _ _ (Frame-set_pi_se s p _) (Frame-set_pi_se s p p)

  -- The class follows the policy, so a boost takes no task from the lottery class.
  setscheduler_prio-Rewrites :
      {s t : State K}
      → Frame s t
      → (p : ℕ) (prio : ℤ) → is_lottery (s.tasks p).sched_class ≡ ltr_policy (s.tasks p).policy
      → Rewrites p s (setscheduler_prio t p prio)
  unfolding setscheduler_prio class_of put_task write
  setscheduler_prio-Rewrites f p prio before = record {
    ltr = f.ltr;
    links = f.links;
    others = λ q other. ground (arith, f.tasks q);
    tickets = ground (arith, f.tasks p);
    on_rq = ground (arith, f.tasks p);
    by_policy = ground arith;
    kept = λ own. ground (arith, f.tasks p, before);
  }

  boost_requeue-IsSystem :
      {s : State K}
      → IsSystem s
      → (p : ℕ) (o : Option ℕ) (prio : ℤ) → IsSystem (boost_requeue s p o prio)
  unfolding boost_requeue boosted
  boost_requeue-IsSystem {s} i p o prio =
      let t = s.tasks p in
      let flags : ℕ = if eqb_ℤ t.prio prio then 0x0a else 0x0e in
      requeue_around-IsSystem i p flags (λ u. (boost_params u p o t.prio prio flags).0)
        (λ u. boosted u p o t.prio prio flags)
        (λ u _. setscheduler_prio-Rewrites (Frame-boost_params u p o t.prio prio flags) p prio)

  -- Boosting a task and taking the boost back keep the invariant on every branch, whatever the
  -- classes of the two tasks.
  pub rt_mutex_setprio-IsSystem :
      {s : State K}
      → IsSystem s
      → (p : ℕ) (pi_task : Option ℕ) → IsSystem (rt_mutex_setprio s p pi_task)
  unfolding rt_mutex_setprio
  rt_mutex_setprio-IsSystem {s} i p pi_task =
      let prio = rt_effective_prio_of s pi_task (s.tasks p).normal_prio in
      let settled = eqb_ℤ prio (s.tasks p).prio && not (K.dl_prio prio) in
      let s' = set_pi_top_task (update_rq_clock s) p pi_task in
      let j =
        Frame-IsSystem
          (Frame-trans (Frame-update_rq_clock s)
            (Frame-set_pi_top_task (update_rq_clock s) p pi_task))
          i in
      IsSystem-if (same_task (s.tasks p).pi_top_task pi_task && settled) i (
        IsSystem-if settled j
          (IsSystem-if (p == s'.rq.idle) j (boost_requeue-IsSystem j p pi_task prio)))
    where
      IsSystem-if :
          (b : Bool) {t u : State K} → IsSystem t → IsSystem u → IsSystem (if b then t else u)
      IsSystem-if true i j = i
      IsSystem-if false i j = j
