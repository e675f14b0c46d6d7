-- ===== src/Prelude/Int.antt =====
-- Signed integers over the native numbers, and the arithmetic of int32 and int64, which wraps.
use Prim.Native.Nat.{ℕ, suc, ◌+◌, ◌-◌, ◌*◌, ◌%◌, ◌≤◌, ◌<◌}
use mathlib.Core.Path.{◌≡◌}
use mathlib.Core.Bool.{Bool}
use native.Mathlib.Omega.{arith}
use fusioninfer.Prelude.Tests.{ltb, leb, if◌then◌else◌}

-- `negsuc n` is -(n + 1).
pub data ℤ : Type 0 where
  pos : ℕ → ℤ
  negsuc : ℕ → ℤ

abbrev pub pos_part : ℤ → ℕ
pos_part (pos n) = n
pos_part (negsuc n) = 0

abbrev pub neg_part : ℤ → ℕ
neg_part (pos n) = 0
neg_part (negsuc n) = suc n

-- a - b, as an integer.
abbrev pub sub_ℕ : ℕ → ℕ → ℤ
sub_ℕ a b = if leb b a then pos (a - b) else negsuc (b - a - 1)

infixl 65 ◌+ℤ◌
infixl 70 ◌*ℤ◌
infix 50 ◌≤ℤ◌
unfoldable pub ◌+ℤ◌ : ℤ → ℤ → ℤ
a +ℤ b = sub_ℕ (pos_part a + pos_part b) (neg_part a + neg_part b)

unfoldable pub ◌*ℤ◌ : ℤ → ℤ → ℤ
a *ℤ b =
    sub_ℕ (pos_part a * pos_part b + neg_part a * neg_part b)
      (pos_part a * neg_part b + neg_part a * pos_part b)

abbrev pub ◌≤ℤ◌ : ℤ → ℤ → Type 0
a ≤ℤ b = pos_part a + neg_part b ≤ pos_part b + neg_part a

abbrev pub leb_ℤ : ℤ → ℤ → Bool
leb_ℤ a b = leb (pos_part a + neg_part b) (pos_part b + neg_part a)

-- The residue of an integer modulo 2 * h, from 0 to 2 * h - 1.
abbrev pub residue : ℕ → ℤ → ℕ
residue h (pos n) = n % (2 * h)
residue h (negsuc n) = 2 * h - 1 - n % (2 * h)

-- Two's complement with 2 * h values: the value from -h to h - 1 that is congruent to the argument.
unfoldable pub wrap : ℕ → ℤ → ℤ
wrap h z = let u = residue h z in if ltb u h then pos u else negsuc (2 * h - 1 - u)

abbrev pub half32 : ℕ
half32 = 2147483648

abbrev pub half64 : ℕ
half64 = 9223372036854775808

-- `+` and `*` on int32, `*` on int64.
unfoldable pub add32 : ℤ → ℤ → ℤ
unfolding ◌+ℤ◌ wrap
add32 a b = wrap half32 (a +ℤ b)

unfoldable pub mul32 : ℤ → ℤ → ℤ
unfolding ◌*ℤ◌ wrap
mul32 a b = wrap half32 (a *ℤ b)

unfoldable pub mul64 : ℤ → ℤ → ℤ
unfolding ◌*ℤ◌ wrap
mul64 a b = wrap half64 (a *ℤ b)

pub add32-pos : (a b : ℕ) → a + b < half32 → add32 (pos a) (pos b) ≡ pos (a + b)
unfolding add32
add32-pos a b h = ground arith

pub mul32-pos : (a b : ℕ) → a * b < half32 → mul32 (pos a) (pos b) ≡ pos (a * b)
unfolding mul32
mul32-pos a b h = ground arith

pub mul64-pos : (a b : ℕ) → a * b < half64 → mul64 (pos a) (pos b) ≡ pos (a * b)
unfolding mul64
mul64-pos a b h = ground arith

-- The number of rounds of `for i := 0; i < n; i++`.
abbrev pub rounds : ℤ → ℕ
rounds = pos_part
