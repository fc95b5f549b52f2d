-- ===== src/Group/Visit.antt =====
-- `walk_tg_tree_from` of kernel/sched/core.c against a recursion over the tree.
use lottery_scheduler.Base.{
  ℕ, suc, ◌+◌, ◌≡◌, refl, sym, true, false, Option, none, some, arith, ◌==◌, ap, ◌∙◌, if◌then◌else◌,
}
use lottery_scheduler.Machine.{Errno}
use lottery_scheduler.Group.Walk.{
  Links, Answer, and_then, Label, down, up, out, leave, each_child, walk_step, walk_loop,
  walk_tg_tree_from,
}
use lottery_scheduler.Group.Forest.{
  Forest, empty, tree, first, IsForest, IsTree, visit, visit_tree, labels,
}

module _ {ℓ κ} {A : Type ℓ} {B : Type κ} (failed : Option Errno → A → B) where
  and_then-and_then :
      (a : Answer A) (f : A → Answer A) (next : A → B)
      → and_then (and_then a (λ e t. (e, t)) f) failed next
        ≡ and_then a failed (λ t. and_then (f t) failed next)
  unfolding and_then
  and_then-and_then (none, s) f next = refl
  and_then-and_then (some e, s) f next = refl

  and_then-cong :
      (a : Answer A) {f g : A → B}
      → ((t : A) → f t ≡ g t)
      → and_then a failed f ≡ and_then a failed g
  unfolding and_then
  and_then-cong (none, s) h = h s
  and_then-cong (some e, s) h = refl

abbrev stop {ℓ} : {A : Type ℓ} → Option Errno → A → Option (Answer A)
stop e t = some (e, t)

some-and_then {ℓ} :
    {A : Type ℓ} (a : Answer A) (next : A → Answer A)
    → some (and_then a (λ e t. (e, t)) next) ≡ and_then a stop (λ t. some (next t))
unfolding and_then
some-and_then (none, s) next = refl
some-and_then (some e, s) next = refl

module _ {ℓ} {A : Type ℓ} (T : Links) (enter exit : ℕ → A → Answer A) (from : ℕ) where
  abbrev loop : (fuel : ℕ) → Label × A → Option (Answer A)
  loop = walk_loop T enter exit from

  loop-and_then :
      (n : ℕ) (a : Answer A) (next : A → Label × A)
      → loop n (and_then a (λ ret t. (out ret, t)) next) ≡ and_then a stop (λ t. loop n (next t))
  unfolding and_then walk_loop
  loop-and_then n (none, s) next = refl
  loop-and_then n (some e, s) next = refl

  down-walk :
      (n g : ℕ) (s : A)
      → loop (suc n) (down g, s)
        ≡ and_then
            (enter g s)
            stop
            (λ t. loop n (each_child T enter exit from g (T.first_child g) t))
  unfolding walk_step walk_loop
  down-walk n g s = loop-and_then n (enter g s) (each_child T enter exit from g (T.first_child g))

  resume :
      (n p g : ℕ) (t : A)
      → T.parent g ≡ some p
      → (g == from) ≡ false
      → loop (suc n) (
          if g == from
          then (out none, t)
          else elim (T.parent g) [ some p ↦ (up p g, t) | none ↦ (out none, t) ])
        ≡ loop n (each_child T enter exit from p (T.next_sibling g) t)
  unfolding walk_step walk_loop
  resume n p g t par ne = rw (ne, par) refl

  leave-walk :
      (n p g : ℕ) (s : A)
      → T.parent g ≡ some p
      → (g == from) ≡ false
      → loop (suc n) (leave T enter exit from g s)
        ≡ and_then
            (exit g s)
            stop
            (λ t. loop n (each_child T enter exit from p (T.next_sibling g) t))
  unfolding leave
  leave-walk n p g s par ne =
      loop-and_then (suc n) (exit g s) _
      ∙ and_then-cong stop (exit g s) (λ t. resume n p g t par ne)

  -- The labels of a list of children, as the recursion spends them.
  labels-tree :
      (g n : ℕ) (a b : Forest) → labels (tree g a b) + n ≡ suc (labels a + suc (labels b + n))
  labels-tree g n a b = omega arith

  same : (g : ℕ) → (g == g) ≡ true
  same g = ground arith

  finish :
      (t : A)
      → loop 0 (
          if from == from
          then (out none, t)
          else elim (T.parent from) [ some p ↦ (up p from, t) | none ↦ (out none, t) ])
        ≡ some (none, t)
  unfolding walk_loop
  finish t = rw (same from) refl

  answered : (a : Answer A) → and_then a stop (λ t. some (none, t)) ≡ some a
  unfolding and_then
  answered (none, s) = refl
  answered (some e, s) = refl

  leave_from : (s : A) → loop 0 (leave T enter exit from from s) ≡ some (exit from s)
  unfolding leave
  leave_from s =
      loop-and_then 0 (exit from s) _
      ∙ and_then-cong stop (exit from s) finish
      ∙ answered (exit from s)

  and_then-visit :
      (g : ℕ) (children siblings : Forest) (s : A) (next : A → Option (Answer A))
      → and_then (visit enter exit (tree g children siblings) s) stop next
        ≡ and_then (enter g s) stop (λ t.
          and_then
            (visit enter exit children t)
            stop
            (λ u. and_then (exit g u) stop (λ v. and_then (visit enter exit siblings v) stop next)))
  unfolding visit
  and_then-visit g children siblings s next =
      and_then-and_then stop (enter g s) _ next
      ∙ and_then-cong stop (enter g s) (λ t.
        and_then-and_then stop (visit enter exit children t) _ next
        ∙ and_then-cong stop (visit enter exit children t)
            (λ u. and_then-and_then stop (exit g u) _ next))

  children-walk :
      (p : ℕ) (cs : Forest) (n : ℕ) (s : A)
      → IsForest T from p cs
      → loop (labels cs + n) (each_child T enter exit from p (first cs) s)
        ≡ and_then (visit enter exit cs s) stop (λ t. loop n (leave T enter exit from p t))
  unfolding visit and_then each_child
  children-walk p empty n s h = ap (λ k. loop k (leave T enter exit from p s)) (omega arith)
  children-walk p (tree g children siblings) n s (par, ne, fc, ns, below, after) =
      ap (λ k. loop k (down g, s)) (labels-tree g n children siblings)
      ∙ down-walk (labels children + suc (labels siblings + n)) g s
      ∙ and_then-cong stop (enter g s) (λ t.
        ap
          (λ o.
            loop (labels children + suc (labels siblings + n)) (each_child T enter exit from g o t))
          fc
        ∙ children-walk g children (suc (labels siblings + n)) t below
        ∙ and_then-cong stop (visit enter exit children t) (λ u.
          leave-walk (labels siblings + n) p g u par ne
          ∙ and_then-cong stop (exit g u) (λ v.
            ap (λ o. loop (labels siblings + n) (each_child T enter exit from p o v)) ns
            ∙ children-walk p siblings n v after)))
      ∙ sym (and_then-visit g children siblings s _)

-- walk_tg_tree_from ends on pointers that have the shape of a tree, after at most two labels for each
-- group, and does what the recursion over the tree does, whatever the visitors do.
pub walk_tg_tree_from-visit {ℓ} :
    {A : Type ℓ} (T : Links) (enter exit : ℕ → A → Answer A) (from : ℕ) (children : Forest) (s : A)
    → IsTree T from children
    → walk_tg_tree_from T enter exit from (suc (labels children)) s
      ≡ some (visit_tree enter exit from children s)
unfolding walk_tg_tree_from visit_tree
walk_tg_tree_from-visit T enter exit from children s (fc, h) =
    down-walk T enter exit from (labels children) from s
    ∙ and_then-cong stop (enter from s) (λ t.
      ap
        (λ o. walk_loop T enter exit from (labels children) (each_child T enter exit from from o t))
        fc
      ∙ ap
          (λ k.
            walk_loop T enter exit from k (each_child T enter exit from from (first children) t))
          (omega arith)
      ∙ children-walk T enter exit from from children 0 t h
      ∙ and_then-cong stop (visit enter exit children t) (leave_from T enter exit from)
      ∙ sym (some-and_then (visit enter exit children t) (exit from)))
    ∙ sym (some-and_then (enter from s) _)
