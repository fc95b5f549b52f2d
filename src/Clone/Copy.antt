-- ===== src/Clone/Copy.antt =====
-- `copy_mm`, `copy_fs`, `copy_files`, `copy_io`, `copy_sighand` and `copy_signal` of kernel/fork.c: the child
-- shares an object of the parent and is counted as a user, or gets its own.
use lottery_scheduler.Base.{ℕ, Option, none, some, ◌==◌, if◌then◌else◌}
use lottery_scheduler.Task.{test_bits}
use lottery_scheduler.Machine.{Kernel, Errno, eagain, enomem}
use lottery_scheduler.Core.Setscheduler.Request.{Outcome, refuse, pass}
use lottery_scheduler.Clone.Flags.{
  clone_vm, clone_fs, clone_files, clone_sighand, clone_io, clone_thread,
}
use lottery_scheduler.Clone.World.{
  Resource, mm, files, fs, sighand, io_context, Service, signal, Services, ForkState, current,
  with_users, with_world, point, bump, write_at,
}

module _ {K : Kernel} {V : Services} where
  -- A service is taken, or its error is the step's.
  unfoldable pub take : Service → (flags p : ℕ) → ForkState K V → Option Errno × ForkState K V
  take x flags p s = let r = V.acquire x flags p s.world in (r.0, with_world s r.1)

  -- The duplicate has one user and is the child's.
  unfoldable pub own :
      ForkState K V → Resource → (p : ℕ) → Outcome ℕ × V.World → Option Errno × ForkState K V
  unfolding point write_at
  own s r p (refuse e, w) = (some e, with_world s w)
  own s r p (pass a, w) = (none, point (with_users (with_world s w) (write_at s.users a 1)) p r a)

  -- A NULL is stored before it is found to be one.
  unfoldable pub own_or_null :
      ForkState K V → Resource → (p : ℕ) → Outcome ℕ × V.World → Option Errno × ForkState K V
  unfolding own point
  own_or_null s r p (refuse e, w) = (some enomem, point (with_world s w) p r 0)
  own_or_null s r p (pass a, w) = own s r p (pass a, w)

  unfoldable pub copy_files : (flags p : ℕ) → ForkState K V → Option Errno × ForkState K V
  unfolding own bump
  copy_files flags p s =
      let oldf = s.resources (current s) files in
      if oldf == 0
      then (none, s)
      else if test_bits flags clone_files
      then (none, bump s oldf)
      else own s files p (V.duplicate files p s.users s.world)

  -- `in_exec` is a member of the parent's `fs`.
  unfoldable pub copy_fs : (flags p : ℕ) → ForkState K V → Option Errno × ForkState K V
  unfolding own_or_null bump
  copy_fs flags p s =
      let oldfs = s.resources (current s) fs in
      if test_bits flags clone_fs
      then if V.in_exec oldfs s.world then (some eagain, s) else (none, bump s oldfs)
      else own_or_null s fs p (V.duplicate fs p s.users s.world)

  unfoldable pub copy_sighand : (flags p : ℕ) → ForkState K V → Option Errno × ForkState K V
  unfolding own_or_null bump
  copy_sighand flags p s =
      if test_bits flags clone_sighand
      then (none, bump s (s.resources (current s) sighand))
      else own_or_null s sighand p (V.duplicate sighand p s.users s.world)

  unfoldable pub copy_signal : (flags p : ℕ) → ForkState K V → Option Errno × ForkState K V
  unfolding take
  copy_signal flags p s = if test_bits flags clone_thread then (none, s) else take signal flags p s

  unfoldable pub copy_mm : (flags p : ℕ) → ForkState K V → Option Errno × ForkState K V
  unfolding own_or_null bump point
  copy_mm flags p s =
      let oldmm = s.resources (current s) mm in
      let s' = point s p mm 0 in
      if oldmm == 0
      then (none, s')
      else if test_bits flags clone_vm
      then (none, point (bump s' oldmm) p mm oldmm)
      else own_or_null s' mm p (V.duplicate mm p s'.users s'.world)

  unfoldable pub copy_io : (flags p : ℕ) → ForkState K V → Option Errno × ForkState K V
  unfolding own_or_null point
  copy_io flags p s =
      let ioc = s.resources (current s) io_context in
      if ioc == 0
      then (none, s)
      else if test_bits flags clone_io
      then (none, point (with_users s (V.link_object ioc s.users)) p io_context ioc)
      else if V.ioprio_valid ioc s.world
      then own_or_null s io_context p (V.duplicate io_context p s.users s.world)
      else (none, s)
