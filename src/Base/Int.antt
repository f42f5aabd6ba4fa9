-- ===== src/Base/Int.antt =====
-- Signed integers over the native numbers, Go's `int64` and `int32` as integers that wrap, and
-- Go's division, which rounds towards 0.
use Prim.Native.Nat.{ℕ, suc, ◌+◌, ◌-◌, ◌*◌, ◌/◌, ◌%◌, ◌≤◌, ◌<◌}
use mathlib.Core.Path.{◌≡◌, refl}
use mathlib.Core.Bool.{Bool}
use native.Mathlib.Omega.{arith}
use yass_simulator.Base.Tests.{ltb, leb, if◌then◌else◌}

-- `negsuc n` is -(n + 1).
pub data ℤ : Type 0 where
  pos : ℕ → ℤ
  negsuc : ℕ → ℤ

abbrev pub pos_part : ℤ → ℕ
pos_part (pos n) = n
pos_part (negsuc n) = 0

abbrev pub neg_part : ℤ → ℕ
neg_part (pos n) = 0
neg_part (negsuc n) = suc n

-- a - b, as an integer.
abbrev pub sub_ℕ : ℕ → ℕ → ℤ
sub_ℕ a b = if leb b a then pos (a - b) else negsuc (b - a - 1)

infixl 65 ◌+ℤ◌ ◌-ℤ◌
infixl 70 ◌*ℤ◌
infix 50 ◌≤ℤ◌ ◌<ℤ◌
unfoldable pub ◌+ℤ◌ : ℤ → ℤ → ℤ
a +ℤ b = sub_ℕ (pos_part a + pos_part b) (neg_part a + neg_part b)

unfoldable pub ◌-ℤ◌ : ℤ → ℤ → ℤ
a -ℤ b = sub_ℕ (pos_part a + neg_part b) (neg_part a + pos_part b)

unfoldable pub ◌*ℤ◌ : ℤ → ℤ → ℤ
a *ℤ b =
    sub_ℕ (pos_part a * pos_part b + neg_part a * neg_part b)
      (pos_part a * neg_part b + neg_part a * pos_part b)

abbrev pub ◌≤ℤ◌ : ℤ → ℤ → Type 0
a ≤ℤ b = pos_part a + neg_part b ≤ pos_part b + neg_part a

abbrev pub ◌<ℤ◌ : ℤ → ℤ → Type 0
a <ℤ b = pos_part a + neg_part b < pos_part b + neg_part a

abbrev pub ltb_ℤ : ℤ → ℤ → Bool
ltb_ℤ a b = ltb (pos_part a + neg_part b) (pos_part b + neg_part a)

abbrev pub leb_ℤ : ℤ → ℤ → Bool
leb_ℤ a b = leb (pos_part a + neg_part b) (pos_part b + neg_part a)

abbrev pub abs : ℤ → ℕ
abs z = pos_part z + neg_part z

-- Go's `a / n` for a positive constant n: towards 0.
unfoldable pub quot : ℤ → ℕ → ℤ
quot a n = sub_ℕ (pos_part a / n) (neg_part a / n)

-- The w-bit two's complement value with the bits of z, for m = 2^w and h = 2^(w-1).
of_bits : ℕ → ℕ → ℤ
of_bits m u = if ltb (u + u) m then pos u else negsuc (m - u - 1)

-- The bits of z: z modulo m.
unfoldable pub bits : ℕ → ℤ → ℕ
bits m z = (pos_part z % m + (m - neg_part z % m)) % m

unfoldable pub wrap : ℕ → ℤ → ℤ
unfolding of_bits bits
wrap m z = of_bits m (bits m z)

abbrev pub uint64 : ℤ → ℕ
uint64 = bits 18446744073709551616

abbrev pub int64 : ℤ → ℤ
int64 = wrap 18446744073709551616

abbrev pub int32 : ℤ → ℤ
int32 = wrap 4294967296

-- A number below 2^63 is kept.
pub int64-pos : (n : ℕ) → n < 9223372036854775808 → int64 (pos n) ≡ pos n
unfolding wrap
int64-pos n h = ground arith

pub int32-pos : (n : ℕ) → n < 2147483648 → int32 (pos n) ≡ pos n
unfolding wrap
int32-pos n h = ground arith

pub +ℤ_parts :
    (a b : ℤ)
    → pos_part (a +ℤ b) + neg_part a + neg_part b ≡ neg_part (a +ℤ b) + pos_part a + pos_part b
unfolding ◌+ℤ◌
+ℤ_parts a b = ground arith

pub -ℤ_parts :
    (a b : ℤ)
    → pos_part (a -ℤ b) + neg_part a + pos_part b ≡ neg_part (a -ℤ b) + pos_part a + neg_part b
unfolding ◌-ℤ◌
-ℤ_parts a b = ground arith

wrap_high : int64 (pos 18446744073709551615) ≡ negsuc 0
unfolding wrap
wrap_high = refl

wrap_low : int32 (negsuc 2147483648) ≡ pos 2147483647
unfolding wrap
wrap_low = refl

quot_negative : quot (negsuc 6) 2 ≡ negsuc 2
unfolding quot
quot_negative = refl
