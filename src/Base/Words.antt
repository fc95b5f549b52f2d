-- ===== src/Base/Words.antt =====
-- Arithmetic of `unsigned int`: 32 bits, wrapping.
use Prim.Native.Nat.{ℕ, ◌+◌, ◌-◌, ◌%◌, ◌^◌, ◌<◌}
use mathlib.Core.Path.{◌≡◌}
use mathlib.Core.Bool.{Bool}
use native.Mathlib.Omega.{arith}
use lottery_scheduler.Base.Tests.{leb}

abbrev pub u32_mod : ℕ
u32_mod = 2 ^ 32

unfoldable pub add32 : ℕ → ℕ → ℕ
add32 a b = (a + b) % u32_mod

unfoldable pub sub32 : ℕ → ℕ → ℕ
sub32 a b = (a + u32_mod - b % u32_mod) % u32_mod

abbrev pub u64_mod : ℕ
u64_mod = 2 ^ 64

unfoldable pub add64 : ℕ → ℕ → ℕ
add64 a b = (a + b) % u64_mod

unfoldable pub sub64 : ℕ → ℕ → ℕ
sub64 a b = (a + u64_mod - b % u64_mod) % u64_mod

-- Whether the word is negative as an `s64`.
abbrev pub negative64 : ℕ → Bool
negative64 a = leb (2 ^ 63) a

pub sub32-add32 : (a b : ℕ) → a < u32_mod → sub32 (add32 a b) b ≡ a
unfolding add32 sub32
sub32-add32 a b h = omega arith

-- Reading both as residues: the word sum of a residue is the residue of the sum.
pub add32-mod : (a b : ℕ) → add32 (a % u32_mod) b ≡ (a + b) % u32_mod
unfolding add32
add32-mod a b = omega arith

pub sub32-mod : (a b : ℕ) → sub32 ((b + a) % u32_mod) b ≡ a % u32_mod
unfolding sub32
sub32-mod a b = omega arith
