-- ===== src/Syscall/Getters.antt =====
-- `sched_getscheduler`, `sched_getparam`, `sched_getattr` and `sched_rr_get_interval` of
-- kernel/sched/core.c.
use Prim.Native.Nat.{bit_and, bit_or}
use lottery_scheduler.Base.{ℕ, Option, some, ◌||◌, not, ◌==◌, ltb, if◌then◌else◌, ℤ, pos}
use lottery_scheduler.Task.{rt_policy}
use lottery_scheduler.Machine.{Kernel, Errno, einval, Attr}
use lottery_scheduler.Core.Hooks.{class_get_rr_interval}
use lottery_scheduler.Core.Setscheduler.Request.{
  Outcome, refuse, pass, sched_reset_on_fork_bit, reset_on_fork_flag, all_flags,
}
use lottery_scheduler.Syscall.User.{UserSpace, System, negative, find_process_by_pid, readable}
use lottery_scheduler.Syscall.Attributes.{get_params, written, sched_attr_copy_to_user}

-- The answer for a task that may be read.
abbrev pub ask : {A : Type 0} → Outcome ℕ → (ℕ → A) → Outcome A
ask (refuse e) f = refuse e
ask (pass p) f = pass (f p)

module _ {K : Kernel} {U : UserSpace} where
  -- `p->policy | (p->sched_reset_on_fork ? SCHED_RESET_ON_FORK : 0)`
  unfoldable pub policy_word : System K U → (p : ℕ) → ℕ
  policy_word s p =
      let t = s.sched.tasks p in
      bit_or t.policy (if t.sched_reset_on_fork then sched_reset_on_fork_bit else 0)

  unfoldable pub sys_sched_getscheduler : System K U → (pid : ℤ) → Outcome ℕ
  unfolding readable find_process_by_pid policy_word
  sys_sched_getscheduler s pid =
      if negative pid
      then refuse einval
      else ask (readable s (find_process_by_pid s pid)) (policy_word s)

  unfoldable pub write_param_of : System K U → (param : ℕ) → Outcome ℕ → Option Errno × System K U
  unfolding written
  write_param_of s param (refuse e) = (some e, s)
  write_param_of s param (pass p) =
      let t = s.sched.tasks p in
      written s (U.write_param param (if rt_policy t.policy then t.rt_priority else 0) s.world)

  unfoldable pub sys_sched_getparam : System K U → (pid : ℤ) (param : ℕ) → Option Errno × System K U
  unfolding write_param_of readable find_process_by_pid
  sys_sched_getparam s pid param =
      if param == 0 || negative pid
      then (some einval, s)
      else write_param_of s param (readable s (find_process_by_pid s pid))

  -- What `sched_getattr` reports of a task, all other fields being 0.
  unfoldable pub attr_of : System K U → (p : ℕ) → Attr
  unfolding get_params
  attr_of s p =
      let t = s.sched.tasks p in
      let flags = if t.sched_reset_on_fork then reset_on_fork_flag else 0 in
      let attr =
        get_params s p (record { policy = t.policy; flags = flags; nice = pos 0; priority = 0 }) in
      record attr { flags = bit_and attr.flags all_flags }

  unfoldable pub write_attr_of :
      System K U → (uattr usize : ℕ) → Outcome ℕ → Option Errno × System K U
  unfolding attr_of sched_attr_copy_to_user
  write_attr_of s uattr usize (refuse e) = (some e, s)
  write_attr_of s uattr usize (pass p) = sched_attr_copy_to_user s uattr (attr_of s p) usize

  unfoldable pub sys_sched_getattr :
      System K U → (pid : ℤ) (uattr usize flags : ℕ) → Option Errno × System K U
  unfolding write_attr_of readable find_process_by_pid
  sys_sched_getattr s pid uattr usize flags =
      if uattr == 0
        || (negative pid || (ltb U.page_size usize || (ltb usize U.size_ver0 || not (flags == 0))))
      then (some einval, s)
      else write_attr_of s uattr usize (readable s (find_process_by_pid s pid))

  -- The time slice in jiffies, 0 where the class has no such hook.
  unfoldable pub sched_rr_get_interval : System K U → (pid : ℤ) → Outcome ℕ
  unfolding readable find_process_by_pid class_get_rr_interval
  sched_rr_get_interval s pid =
      if negative pid
      then refuse einval
      else ask (readable s (find_process_by_pid s pid))
          (λ p. class_get_rr_interval s.sched (s.sched.tasks p).sched_class p)
