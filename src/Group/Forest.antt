-- ===== src/Group/Forest.antt =====
-- A tree of task groups as data, the pointers that have its shape, and the recursion over it.
use lottery_scheduler.Base.{
  ℕ, suc, ◌+◌, ◌*◌, ◌≡◌, Bool, true, false, ◌||◌, Option, none, some, ◌==◌,
}
use lottery_scheduler.Group.Walk.{Links, Answer, and_then}

-- The groups of a list of children: the first one with its own children, then those after it.
pub data Forest : Type 0 where
  empty : Forest
  tree : (g : ℕ) → (children siblings : Forest) → Forest

abbrev pub first : Forest → Option ℕ
first empty = none
first (tree g children siblings) = some g

abbrev pub size : Forest → ℕ
size empty = 0
size (tree g children siblings) = suc (size children + size siblings)

-- The pointers have the shape of these children of `p`, and `from` is none of them.
abbrev pub IsForest : Links → (from p : ℕ) → Forest → Type 0
IsForest T from p empty = Unit
IsForest T from p (tree g children siblings) =
    (T.parent g ≡ some p)
    × ((g == from) ≡ false)
    × (T.first_child g ≡ first children)
    × (T.next_sibling g ≡ first siblings)
    × IsForest T from g children
    × IsForest T from p siblings

-- The tree at `from`.
abbrev pub IsTree : Links → (from : ℕ) → Forest → Type 0
IsTree T from children = (T.first_child from ≡ first children) × IsForest T from from children

module _ {ℓ} {A : Type ℓ} (enter exit : ℕ → A → Answer A) where
  -- Each group before and after its children.
  unfoldable pub visit : Forest → A → Answer A
  unfolding and_then
  visit empty s = (none, s)
  visit (tree g children siblings) s =
      and_then (enter g s) (λ e t. (e, t))
        (λ t.
          and_then (visit children t) (λ e u. (e, u))
            (λ u. and_then (exit g u) (λ e v. (e, v)) (λ v. visit siblings v)))

  unfoldable pub visit_tree : (from : ℕ) → Forest → A → Answer A
  unfolding visit and_then
  visit_tree from children s =
      and_then (enter from s) (λ e t. (e, t))
        (λ t. and_then (visit children t) (λ e u. (e, u)) (exit from))

-- The labels that these groups take.
abbrev pub labels : Forest → ℕ
labels cs = 2 * size cs

abbrev pub has : Forest → ℕ → Bool
has empty x = false
has (tree g children siblings) x = x == g || (has children x || has siblings x)

abbrev pub IsDistinct : Forest → Type 0
IsDistinct empty = Unit
IsDistinct (tree g children siblings) =
    (has children g ≡ false)
    × (has siblings g ≡ false)
    × ((x : ℕ) → has children x ≡ true → has siblings x ≡ false)
    × IsDistinct children
    × IsDistinct siblings
