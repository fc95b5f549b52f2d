-- ===== src/Base/Lists.antt =====
-- Lists over native numbers: length, sum, membership, removal, counting.
use Prim.Native.Nat.{ℕ, zero, suc, ◌+◌, ◌<◌}
use mathlib.Core.Path.{◌≡◌, refl, ap, ◌∙◌}
use mathlib.Core.Bool.{Bool, true, false, ◌||◌, ◌&&◌, not}
use mathlib.Core.List.{List, [], ◌∷◌, ◌++◌}
use mathlib.Core.Option.{Option, none, some}
use native.Mathlib.Omega.{arith}
use lottery_scheduler.Base.Tests.{◌==◌, if◌then◌else◌}

suc_add : (n i : ℕ) → suc n + i ≡ suc (n + i)
suc_add n i = omega arith

module _ {ℓ} {A : Type ℓ} where
  abbrev pub length : List A → ℕ
  length [] = 0
  length (x ∷ xs) = suc (length xs)

  abbrev pub get_elem? : List A → ℕ → Option A
  get_elem? [] i = none
  get_elem? (x ∷ xs) zero = some x
  get_elem? (x ∷ xs) (suc i) = get_elem? xs i

  abbrev pub replicate : ℕ → A → List A
  replicate zero a = []
  replicate (suc n) a = a ∷ replicate n a

  abbrev pub is_nil : List A → Bool
  is_nil [] = true
  is_nil (x ∷ xs) = false

  pub get_elem?-some : (xs : List A) (i : ℕ) → i < length xs → (a : A) × (get_elem? xs i ≡ some a)
  get_elem?-some [] i h = absurd (omega arith)
  get_elem?-some (x ∷ xs) zero h = (x, refl)
  get_elem?-some (x ∷ xs) (suc i) h = get_elem?-some xs i (omega arith)

  pub length-append : (xs ys : List A) → length (xs ++ ys) ≡ length xs + length ys
  length-append [] ys = omega arith
  length-append (x ∷ xs) ys = omega (arith, length-append xs ys)

  pub length-replicate : (n : ℕ) (a : A) → length (replicate n a) ≡ n
  length-replicate zero a = refl
  length-replicate (suc n) a = ap suc (length-replicate n a)

  -- An index below `n` falls into the first part, any other into the second.
  pub get_elem?-replicate :
      (n : ℕ) (a : A) (ys : List A) (i : ℕ) → i < n → get_elem? (replicate n a ++ ys) i ≡ some a
  get_elem?-replicate zero a ys i h = absurd (omega arith)
  get_elem?-replicate (suc n) a ys zero h = refl
  get_elem?-replicate (suc n) a ys (suc i) h = get_elem?-replicate n a ys i (omega arith)

  pub get_elem?-replicate_rest :
      (n : ℕ) (a : A) (ys : List A) (i : ℕ)
      → get_elem? (replicate n a ++ ys) (n + i) ≡ get_elem? ys i
  get_elem?-replicate_rest zero a ys i = ap (get_elem? ys) (omega arith)
  get_elem?-replicate_rest (suc n) a ys i =
      ap (get_elem? (a ∷ replicate n a ++ ys)) (suc_add n i) ∙ get_elem?-replicate_rest n a ys i

-- Membership and removal in lists of numbers.
abbrev pub has : ℕ → List ℕ → Bool
has a [] = false
has a (x ∷ xs) = (a == x) || has a xs

-- `xs` without the first occurrence of `a`.
abbrev pub remove : ℕ → List ℕ → List ℕ
remove a [] = []
remove a (x ∷ xs) = if a == x then xs else x ∷ remove a xs

-- No number occurs twice.
abbrev pub distinct : List ℕ → Bool
distinct [] = true
distinct (x ∷ xs) = not (has x xs) && distinct xs

abbrev pub sum_by : (ℕ → ℕ) → List ℕ → ℕ
sum_by f [] = 0
sum_by f (x ∷ xs) = f x + sum_by f xs

pub sum_by-ext : (f g : ℕ → ℕ) (xs : List ℕ) → ((x : ℕ) → f x ≡ g x) → sum_by f xs ≡ sum_by g xs
sum_by-ext f g [] h = refl
sum_by-ext f g (x ∷ xs) h = omega (arith, h x, sum_by-ext f g xs h)

-- A value that no item of the list has does not count.
pub sum_by-ext_off :
    (f g : ℕ → ℕ) (a : ℕ) (xs : List ℕ)
    → has a xs ≡ false
    → ((x : ℕ) → (x == a) ≡ false → f x ≡ g x)
    → sum_by f xs ≡ sum_by g xs
sum_by-ext_off f g a [] out h = refl
sum_by-ext_off f g a (x ∷ xs) out h = ground (arith, h x, sum_by-ext_off f g a xs)

pub sum_by-append : (f : ℕ → ℕ) (xs ys : List ℕ) → sum_by f (xs ++ ys) ≡ sum_by f xs + sum_by f ys
sum_by-append f [] ys = omega arith
sum_by-append f (x ∷ xs) ys = omega (arith, sum_by-append f xs ys)

pub has-append : (a : ℕ) (xs ys : List ℕ) → has a (xs ++ ys) ≡ (has a xs || has a ys)
has-append a [] ys = refl
has-append a (x ∷ xs) ys = ground (arith, has-append a xs ys)

pub has-remove : (a b : ℕ) (xs : List ℕ) → has a xs ≡ false → has a (remove b xs) ≡ false
has-remove a b [] h = refl
has-remove a b (x ∷ xs) h = ground (arith, has-remove a b xs)

pub has-remove_self : (a : ℕ) (xs : List ℕ) → distinct xs ≡ true → has a (remove a xs) ≡ false
has-remove_self a [] h = refl
has-remove_self a (x ∷ xs) h = ground (arith, has-remove_self a xs)

-- Removal takes out one number and keeps the others.
pub has-remove_iff :
    (a b : ℕ) (xs : List ℕ) → distinct xs ≡ true → has a (remove b xs) ≡ (not (a == b) && has a xs)
has-remove_iff a b [] d = ground arith
has-remove_iff a b (x ∷ xs) d = ground (arith, has-remove_iff a b xs)

pub distinct-snoc :
    (a : ℕ) (xs : List ℕ) → distinct xs ≡ true → has a xs ≡ false → distinct (xs ++ a ∷ []) ≡ true
distinct-snoc a [] d h = refl
distinct-snoc a (x ∷ xs) d h = ground (arith, distinct-snoc a xs, has-append x xs (a ∷ []))

pub distinct-remove : (a : ℕ) (xs : List ℕ) → distinct xs ≡ true → distinct (remove a xs) ≡ true
distinct-remove a [] d = refl
distinct-remove a (x ∷ xs) d = ground (arith, distinct-remove a xs, has-remove x a xs)

pub length-remove : (a : ℕ) (xs : List ℕ) → has a xs ≡ true → suc (length (remove a xs)) ≡ length xs
length-remove a [] h = cc
length-remove a (x ∷ xs) h = ground (arith, length-remove a xs)

pub sum_by-remove :
    (f : ℕ → ℕ) (a : ℕ) (xs : List ℕ) → has a xs ≡ true → f a + sum_by f (remove a xs) ≡ sum_by f xs
sum_by-remove f a [] h = cc
sum_by-remove f a (x ∷ xs) h = ground (arith, sum_by-remove f a xs)

-- What is added at the end of a list without it is removed from there.
pub remove-snoc : (a : ℕ) (xs : List ℕ) → has a xs ≡ false → remove a (xs ++ a ∷ []) ≡ xs
remove-snoc a [] h = ground arith
remove-snoc a (x ∷ xs) h = ground (arith, remove-snoc a xs)
