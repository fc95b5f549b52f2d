-- ===== src/Group/Walk.antt =====
-- `walk_tg_tree_from` of kernel/sched/core.c: the loop with its labels, over the pointers of
-- `struct task_group`.
use lottery_scheduler.Base.{ℕ, zero, suc, Option, none, some, ◌==◌, if◌then◌else◌}
use lottery_scheduler.Machine.{Errno}

-- The pointers of the task groups. A list of children is `first_child` and then `next_sibling`; none
-- is the list head, and for `parent` NULL.
pub record Links : Type 0 where
  pub parent : ℕ → Option ℕ
  pub first_child : ℕ → Option ℕ
  pub next_sibling : ℕ → Option ℕ

-- What a visitor answers, none for 0, and the data and memory after it.
abbrev pub Answer {ℓ} : Type ℓ → Type ℓ
Answer A = Option Errno × A

-- The labels: `down` with `parent`, `up` with `parent` and `child`, and `out` with `ret`.
pub data Label : Type 0 where
  down : (parent : ℕ) → Label
  up : (parent child : ℕ) → Label
  out : (ret : Option Errno) → Label

-- `if (ret)` the first, else the next.
unfoldable pub and_then {ℓ κ} :
    {A : Type ℓ} {B : Type κ} → Answer A → (Option Errno → A → B) → (A → B) → B
and_then (some e, s) failed next = failed (some e) s
and_then (none, s) failed next = next s

module _ {ℓ} {A : Type ℓ} (T : Links) (enter exit : ℕ → A → Answer A) (from : ℕ) where
  -- After the list of children.
  unfoldable pub leave : (parent : ℕ) → A → Label × A
  unfolding and_then
  leave parent s =
      and_then (exit parent s) (λ ret t. (out ret, t))
        (λ t.
          if parent == from
          then (out none, t)
          else elim (T.parent parent) [ some p ↦ (up p parent, t) | none ↦ (out none, t) ])

  -- The list of children from one of them on.
  unfoldable pub each_child : (parent : ℕ) → (child : Option ℕ) → A → Label × A
  unfolding leave
  each_child parent (some child) s = (down child, s)
  each_child parent none s = leave parent s

  -- From one label to the next.
  unfoldable pub walk_step : Label → A → Label × A
  unfolding each_child and_then
  walk_step (down parent) s =
      and_then (enter parent s) (λ ret t. (out ret, t)) (each_child parent (T.first_child parent))
  walk_step (up parent child) s = each_child parent (T.next_sibling child) s
  walk_step (out ret) s = (out ret, s)

  -- At most `fuel` labels; none if they do not lead to `out`.
  unfoldable pub walk_loop : (fuel : ℕ) → Label × A → Option (Answer A)
  unfolding walk_step
  walk_loop fuel (out ret, s) = some (ret, s)
  walk_loop zero (down parent, s) = none
  walk_loop zero (up parent child, s) = none
  walk_loop (suc fuel) (down parent, s) = walk_loop fuel (walk_step (down parent) s)
  walk_loop (suc fuel) (up parent child, s) = walk_loop fuel (walk_step (up parent child) s)

  unfoldable pub walk_tg_tree_from : (fuel : ℕ) → A → Option (Answer A)
  unfolding walk_loop
  walk_tg_tree_from fuel s = walk_loop fuel (down from, s)
