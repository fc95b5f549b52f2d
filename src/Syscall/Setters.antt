-- ===== src/Syscall/Setters.antt =====
-- `sched_setscheduler`, `sched_setparam`, `sched_setattr` and `nice` of kernel/sched/core.c.
use lottery_scheduler.Base.{
  ℕ, true, Option, none, some, ◌&&◌, ◌||◌, not, ◌==◌, if◌then◌else◌, ℤ, pos, negsuc, ◌+ℤ◌, ◌-◌,
}
use lottery_scheduler.Task.{test_bits}
use lottery_scheduler.Machine.{Kernel, Errno, einval, eperm, efault, Attr, State}
use lottery_scheduler.Core.Prio.{task_nice, can_nice}
use lottery_scheduler.Core.Nice.{set_user_nice}
use lottery_scheduler.Core.Setscheduler.Request.{
  Outcome, refuse, pass, setparam_policy, negative32, keep_params_flag,
}
use lottery_scheduler.Core.Setscheduler.Calls.{sched_setscheduler, sched_setscheduler_attr}
use lottery_scheduler.Syscall.User.{UserSpace, System, negative, find_process_by_pid, on_process}
use lottery_scheduler.Syscall.Attributes.{clamp, sched_copy_attr, get_params}

abbrev pub keep_policy_flag : ℕ
keep_policy_flag = 0x08

-- -NICE_WIDTH and NICE_WIDTH of include/linux/sched/prio.h
abbrev pub nice_width : ℕ
nice_width = 40

module _ {K : Kernel} {U : UserSpace} where
  -- With the parameter, or none where it cannot be read.
  unfoldable pub set_with :
      System K U → (pid : ℤ) (policy : ℕ) → Option ℕ → Option Errno × System K U
  unfolding find_process_by_pid on_process
  set_with s pid policy none = (some efault, s)
  set_with s pid policy (some priority) =
      on_process s (find_process_by_pid s pid) (λ p. sched_setscheduler s.sched p policy priority)

  unfoldable pub do_sched_setscheduler :
      System K U → (pid : ℤ) (policy param : ℕ) → Option Errno × System K U
  unfolding set_with
  do_sched_setscheduler s pid policy param =
      if param == 0 || negative pid
      then (some einval, s)
      else set_with s pid policy (U.read_param param s.world)

  -- The system calls.
  unfoldable pub sys_sched_setscheduler :
      System K U → (pid : ℤ) (policy param : ℕ) → Option Errno × System K U
  unfolding do_sched_setscheduler
  sys_sched_setscheduler s pid policy param =
      if negative32 policy then (some einval, s) else do_sched_setscheduler s pid policy param

  unfoldable pub sys_sched_setparam : System K U → (pid : ℤ) (param : ℕ) → Option Errno × System K U
  unfolding do_sched_setscheduler
  sys_sched_setparam s pid param = do_sched_setscheduler s pid setparam_policy param

  -- `sched_setattr(p, &attr)` on the task, with the flag that keeps the policy replaced by
  -- SETPARAM_POLICY.
  unfoldable pub set_attr : System K U → (p : ℕ) → Attr → Option Errno × State K
  unfolding get_params
  set_attr s p attr =
      let attr' =
        if test_bits attr.flags keep_policy_flag
        then record attr { policy = setparam_policy }
        else attr in
      let attr'' = if test_bits attr.flags keep_params_flag then get_params s p attr' else attr' in
      sched_setscheduler_attr s.sched p attr'' true true

  unfoldable pub setattr_copied : System K U → (pid : ℤ) → Outcome Attr → Option Errno × System K U
  unfolding set_attr find_process_by_pid on_process
  setattr_copied s pid (refuse e) = (some e, s)
  setattr_copied s pid (pass attr) =
      if negative32 attr.policy
      then (some einval, s)
      else on_process s (find_process_by_pid s pid) (λ p. set_attr s p attr)

  unfoldable pub sys_sched_setattr :
      System K U → (pid : ℤ) (uattr flags : ℕ) → Option Errno × System K U
  unfolding setattr_copied sched_copy_attr
  sys_sched_setattr s pid uattr flags =
      if uattr == 0 || (negative pid || not (flags == 0))
      then (some einval, s)
      else let (o, s') = sched_copy_attr s uattr in setattr_copied s' pid o

  -- `nice(increment)`: what is left when the new level is known.
  unfoldable pub renice_current : System K U → (nice : ℤ) → Option Errno → Option Errno × System K U
  renice_current s nice (some e) = (some e, s)
  renice_current s nice none =
      (none, record s { sched = set_user_nice s.sched s.sched.rq.curr nice })

  unfoldable pub sys_nice : System K U → (increment : ℤ) → Option Errno × System K U
  unfolding clamp renice_current
  sys_nice s increment =
      let curr = s.sched.rq.curr in
      let step = clamp increment (negsuc (nice_width - 1)) (pos nice_width) in
      let nice = clamp (task_nice s.sched curr +ℤ step) K.min_nice K.max_nice in
      if negative step && not (can_nice s.sched curr nice)
      then (some eperm, s)
      else renice_current s nice (U.security_task_setnice curr nice s.world)
