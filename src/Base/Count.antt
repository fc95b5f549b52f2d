-- ===== src/Base/Count.antt =====
-- How many numbers below a bound pass a test, and the same for a test that repeats.
use Prim.Native.Nat.{ℕ, zero, suc, ◌+◌, ◌*◌, ◌%◌, ◌<◌, ◌≤◌, ◌-◌}
use mathlib.Core.Path.{◌≡◌, refl, ap, ◌∙◌}
use mathlib.Core.Bool.{Bool, true, false}
use native.Mathlib.Omega.{arith}
use lottery_scheduler.Base.Tests.{if◌then◌else◌}

unfoldable pub count_below : ℕ → (ℕ → Bool) → ℕ
count_below zero f = 0
count_below (suc n) f = count_below n f + (if f n then 1 else 0)

pub count_below-ext :
    (n : ℕ) (f g : ℕ → Bool) → ((i : ℕ) → i < n → f i ≡ g i) → count_below n f ≡ count_below n g
unfolding count_below
count_below-ext zero f g h = refl
count_below-ext (suc n) f g h =
    rw (h n (omega arith), count_below-ext n f g (λ i lt. h i (omega arith)))

pub count_below-add :
    (a b : ℕ) (f : ℕ → Bool)
    → count_below (a + b) f ≡ count_below a f + count_below b (λ i. f (a + i))
unfolding count_below
count_below-add a zero f =
    let same : a + zero ≡ a = omega arith in ap (λ n. count_below n f) same ∙ omega arith
count_below-add a (suc b) f =
    let next : a + suc b ≡ suc (a + b) = omega arith in
    ap (λ n. count_below n f) next ∙ omega (arith, count_below-add a b f)

pub count_below-const : (n : ℕ) (b : Bool) → count_below n (λ _. b) ≡ (if b then n else 0)
unfolding count_below
count_below-const zero true = refl
count_below-const zero false = refl
count_below-const (suc n) true = omega (arith, count_below-const n true)
count_below-const (suc n) false = omega (arith, count_below-const n false)

pub count_below_mono : (a b : ℕ) (f : ℕ → Bool) → a ≤ b → count_below a f ≤ count_below b f
count_below_mono a b f h =
    let rest : b ≡ a + (b - a) = omega arith in
    omega (arith, ap (λ n. count_below n f) rest, count_below-add a (b - a) f)

-- `q` full rounds and a part of one more.
pub count_below-rounds :
    (t q k : ℕ) (f : ℕ → Bool)
    → k ≤ t
    → count_below (q * t + k) (λ i. f (i % t)) ≡ q * count_below t f + count_below k f
count_below-rounds t zero k f h =
    let none_done : 0 * t + k ≡ k = omega arith in
    ap (λ n. count_below n (λ i. f (i % t))) none_done
    ∙ count_below-ext k _ f (λ i lt. ap f (small i (omega arith)))
    ∙ omega arith
  where
    small : (i : ℕ) → i < t → i % t ≡ i
    small i lt = grind arith
count_below-rounds t (suc q) k f h =
    let one_done : suc q * t + k ≡ t + (q * t + k) = grind arith in
    ap (λ n. count_below n (λ i. f (i % t))) one_done
    ∙ count_below-add t (q * t + k) (λ i. f (i % t))
    ∙ omega (
      arith,
      count_below-ext t (λ i. f (i % t)) f (λ i lt. ap f (small i lt)),
      count_below-ext (q * t + k) (λ i. f ((t + i) % t)) (λ i. f (i % t)) (λ i lt. ap f (again i)),
      count_below-rounds t q k f h,
    )
  where
    small : (i : ℕ) → i < t → i % t ≡ i
    small i lt = grind arith

    again : (i : ℕ) → (t + i) % t ≡ i % t
    again i = grind arith
