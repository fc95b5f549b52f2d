-- ===== src/Syscall/Attributes.antt =====
-- `sched_copy_attr`, `get_params` and `sched_attr_copy_to_user` of kernel/sched/core.c.
use lottery_scheduler.Base.{
  ℕ, Bool, true, false, Option, none, some, ◌&&◌, ◌||◌, not, ◌==◌, ltb, if◌then◌else◌, ℤ, ltb_ℤ,
}
use lottery_scheduler.Task.{dl_policy, rt_policy, test_bits}
use lottery_scheduler.Machine.{Kernel, Errno, einval, efault, e2big, Attr}
use lottery_scheduler.Core.Prio.{task_nice}
use lottery_scheduler.Core.Setscheduler.Request.{Outcome, refuse, pass, util_clamp_flag}
use lottery_scheduler.Syscall.User.{UserSpace, System}

-- `clamp(v, lo, hi)` on integers
unfoldable pub clamp : ℤ → ℤ → ℤ → ℤ
clamp v lo hi = if ltb_ℤ v lo then lo else if ltb_ℤ hi v then hi else v

abbrev pub is_e2big : Errno → Bool
is_e2big Errno.e2big = true
is_e2big e = false

module _ {K : Kernel} {U : UserSpace} where
  -- `err_size`: user space is told the size of the structure.
  unfoldable pub err_size : System K U → (uattr : ℕ) → Outcome Attr × System K U
  err_size s uattr = (refuse e2big, record s { world = U.write_size uattr U.attr_size s.world })

  -- The end of `sched_copy_attr`, with what `copy_struct_from_user` answers.
  unfoldable pub check_copied :
      System K U → (uattr size : ℕ) → Outcome Attr → Outcome Attr × System K U
  unfolding clamp err_size
  check_copied s uattr size (refuse e) = if is_e2big e then err_size s uattr else (refuse e, s)
  check_copied s uattr size (pass attr) =
      if test_bits attr.flags util_clamp_flag && ltb size U.size_ver1
      then (refuse einval, s)
      else (pass (record attr { nice = clamp attr.nice K.min_nice K.max_nice }), s)

  -- With the size that user space gives, or none where it cannot be read.
  unfoldable pub copy_sized : System K U → (uattr : ℕ) → Option ℕ → Outcome Attr × System K U
  unfolding check_copied err_size
  copy_sized s uattr none = (refuse efault, s)
  copy_sized s uattr (some given) =
      let size = if given == 0 then U.size_ver0 else given in
      if ltb size U.size_ver0 || ltb U.page_size size
      then err_size s uattr
      else check_copied s uattr size (U.copy_struct_from_user uattr size s.world)

  unfoldable pub sched_copy_attr : System K U → (uattr : ℕ) → Outcome Attr × System K U
  unfolding copy_sized
  sched_copy_attr s uattr = copy_sized s uattr (U.read_size uattr s.world)

  unfoldable pub get_params : System K U → (p : ℕ) → Attr → Attr
  get_params s p attr =
      let t = s.sched.tasks p in
      if dl_policy t.policy
      then U.getparam_dl t attr
      else if rt_policy t.policy
      then record attr { priority = t.rt_priority }
      else record attr { nice = task_nice s.sched p }

  -- `copy_to_user`, or -EFAULT.
  unfoldable pub written : System K U → Option U.World → Option Errno × System K U
  written s none = (some efault, s)
  written s (some w) = (none, record s { world = w })

  unfoldable pub sched_attr_copy_to_user :
      System K U → (uattr : ℕ) → Attr → (usize : ℕ) → Option Errno × System K U
  unfolding written
  sched_attr_copy_to_user s uattr attr usize =
      if not (U.access_ok uattr usize s.world)
      then (some efault, s)
      else written s
          (U.write_attr uattr (if ltb usize U.attr_size then usize else U.attr_size) attr s.world)
