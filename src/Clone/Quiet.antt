-- ===== src/Clone/Quiet.antt =====
-- Steps of `copy_process` of kernel/fork.c that leave the scheduler alone keep what is known of it.
use lottery_scheduler.Base.{ℕ, ◌≡◌, ◌≢◌, refl, sym, subst, Bool, Option, none, some, arith}
use lottery_scheduler.Task.{ltr_policy, task_on_rq_queued}
use lottery_scheduler.Machine.{Kernel, State, Errno}
use lottery_scheduler.Core.Hooks.{is_lottery}
use lottery_scheduler.Core.System.{IsSystem}
use lottery_scheduler.Core.Forked.{IsSystemBut, IsSystem-But}
use lottery_scheduler.Clone.World.{
  Services, ForkState, Step, CloneArgs, point, and_then, ◌▹◌, at_label, or_goto,
}
use lottery_scheduler.Clone.Copy.{take}
use lottery_scheduler.Clone.Unwind.{give}
use lottery_scheduler.Clone.Steps.{
  collect_signals, check_limits, reset_task, open_pidfd, store_pidfd, take_pid, check_late, publish,
}
use lottery_scheduler.Clone.Taking.{Ends}
use lottery_scheduler.Clone.Runs.{Runs, goto-Runs}
use lottery_scheduler.Clone.Silent.{Silent}

module _ {K : Kernel} (p : ℕ) where
  -- Before the child has its memory, while it is half made, and when `sched_fork` is done with it.
  abbrev pub Start : State K → Type 0
  Start x = IsSystem x × ((x.tasks p).on_rq ≢ task_on_rq_queued)

  abbrev pub But : State K → Type 0
  But x = IsSystemBut p x

  abbrev pub Fit : State K → Type 0
  Fit x = IsSystemBut p x × (is_lottery (x.tasks p).sched_class ≡ ltr_policy (x.tasks p).policy)

  abbrev pub Placed : State K → Type 0
  Placed x = IsSystem x × ((x.tasks p).on_rq ≡ 0)

  pub Start-But : (x : State K) → Start x → But x
  Start-But x b = IsSystem-But p b.0 b.1

  pub Placed-But : (x : State K) → Placed x → But x
  Placed-But x d = IsSystem-But p d.0 (λ e. ground (arith, e, d.1))

  pub Fit-But : (x : State K) → Fit x → But x
  Fit-But x f = f.0

module _ {K : Kernel} {V : Services} where
  -- A predicate of the scheduler.
  abbrev pub On : (State K → Type 0) → ForkState K V → Type 0
  On Q s = Q s.sched

  pub Silent-end :
      (Q B : State K → Type 0)
      → ((x : State K) → Q x → B x)
      → (r : Option Errno × ForkState K V) (s : ForkState K V) → r.1.sched ≡ s.sched
      → Q s.sched
      → Ends (On B) (On Q) r
  unfolding Ends
  Silent-end Q B weaker (some e, t) s same q = subst B (sym same) (weaker s.sched q)
  Silent-end Q B weaker (none, t) s same q = subst Q (sym same) q

  pub Silent-Runs :
      (Q B : State K → Type 0) {m : Step K V}
      → ((x : State K) → Q x → B x)
      → Silent m
      → Runs (On Q) (On B) (On Q) m
  Silent-Runs Q B {m} weaker h = record { run = λ s q. Silent-end Q B weaker (m s) s (h.sched s) q }

  -- The same for a step with a label, which gets to a weaker predicate.
  pub Silent-goto :
      (Q B : State K → Type 0) {m : Step K V}
      → ((x : State K) → Q x → B x)
      → (label : ForkState K V → ForkState K V) → ((s : ForkState K V) → (label s).sched ≡ s.sched)
      → Silent m
      → Runs (On Q) (On B) (On Q) (or_goto label m)
  Silent-goto Q B weaker label same h =
      goto-Runs label (λ s b. subst B (sym (same s)) b) (Silent-Runs Q B weaker h)

  module _ (p : ℕ) where
    pub collect_signals-Silent : (flags : ℕ) → Silent {K = K} {V = V} (collect_signals flags)
    unfolding collect_signals
    collect_signals-Silent flags = record { sched = λ s. refl }

    pub check_limits-Silent : Silent {K = K} {V = V} check_limits
    unfolding check_limits
    check_limits-Silent = record { sched = λ s. ground arith }

    pub reset_task-Silent : Silent {K = K} {V = V} (reset_task p)
    unfolding reset_task point
    reset_task-Silent = record { sched = λ s. refl }

    pub take_pid-Silent : (idle : Bool) (flags : ℕ) → Silent {K = K} {V = V} (take_pid idle flags p)
    unfolding take_pid take
    take_pid-Silent idle flags = record { sched = λ s. ground arith }

    pub open_pidfd-Silent : (args : CloneArgs) → Silent {K = K} {V = V} (open_pidfd args p)
    unfolding open_pidfd ◌▹◌ or_goto and_then at_label take give
    open_pidfd-Silent args = record { sched = λ s. ground arith }

    pub store_pidfd-Silent : (args : CloneArgs) → Silent {K = K} {V = V} (store_pidfd args p)
    unfolding store_pidfd
    store_pidfd-Silent args = record { sched = λ s. ground arith }

    pub check_late-Silent : Silent {K = K} {V = V} (check_late p)
    unfolding check_late
    check_late-Silent = record { sched = λ s. ground arith }

    pub publish-Silent : Silent {K = K} {V = V} (publish p)
    unfolding publish
    publish-Silent = record { sched = λ s. refl }
