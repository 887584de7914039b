-- ===== src/Int64.antt =====
-- Go's int64: integers, the wrap-around of their addition, and the tests against zero.
pub mod Decimal
use chobits.Prelude.{
  ℕ, zero, suc, ◌+◌, ◌-◌, ◌*◌, ◌%◌, ◌^◌, ◌≤◌, ◌<◌, ◌≡◌, refl, Bool, true, false, arith, ltb, leb,
  if◌then◌else◌,
}

-- `negsuc n` is -(n + 1).
pub data ℤ : Type 0 where
  pos : ℕ → ℤ
  negsuc : ℕ → ℤ

abbrev pub pos_part : ℤ → ℕ
pos_part (pos n) = n
pos_part (negsuc n) = 0

abbrev pub neg_part : ℤ → ℕ
neg_part (pos n) = 0
neg_part (negsuc n) = suc n

-- a - b, as an integer.
abbrev pub sub_ℕ : ℕ → ℕ → ℤ
sub_ℕ a b = if leb b a then pos (a - b) else negsuc (b - a - 1)

infixl 65 ◌+ℤ◌
unfoldable pub ◌+ℤ◌ : ℤ → ℤ → ℤ
a +ℤ b = sub_ℕ (pos_part a + pos_part b) (neg_part a + neg_part b)

-- x > 0
abbrev pub is_positive : ℤ → Bool
is_positive (pos n) = ltb 0 n
is_positive (negsuc n) = false

-- a <= b
abbrev pub leb_ℤ : ℤ → ℤ → Bool
leb_ℤ a b = leb (pos_part a + neg_part b) (pos_part b + neg_part a)

-- 2 ^ 63, one more than the largest int64
abbrev pub half_range : ℕ
half_range = 9223372036854775808

-- 2 ^ 64
abbrev pub full_range : ℕ
full_range = 18446744073709551616

abbrev pub IsInt64 : ℤ → Type 0
IsInt64 (pos n) = n < half_range
IsInt64 (negsuc n) = n < half_range

-- The two's complement bits of an integer, cut to 64.
unfoldable pub to_bits : ℤ → ℕ
to_bits (pos n) = n % full_range
to_bits (negsuc n) = full_range - 1 - n % full_range

unfoldable pub of_bits : ℕ → ℤ
of_bits u = if ltb u half_range then pos u else negsuc (full_range - 1 - u)

-- An integer as the int64 that Go's arithmetic leaves.
unfoldable pub wrap64 : ℤ → ℤ
unfolding to_bits of_bits
wrap64 z = of_bits (to_bits z)

-- time.Duration(z) * unit, for a unit of so many nanoseconds
unfoldable pub duration : ℕ → ℤ → ℤ
unfolding wrap64
duration unit (pos n) = wrap64 (pos (n * unit))
duration unit (negsuc n) = wrap64 (negsuc (suc n * unit - 1))

-- z == 0
unfoldable pub is_zero : ℤ → Bool
is_zero (pos zero) = true
is_zero (pos (suc n)) = false
is_zero (negsuc n) = false

pub wrap64-IsInt64 : (z : ℤ) → IsInt64 (wrap64 z)
unfolding wrap64
wrap64-IsInt64 (pos n) = ground arith
wrap64-IsInt64 (negsuc n) = ground arith

pub wrap64_fits : (z : ℤ) → IsInt64 z → wrap64 z ≡ z
unfolding wrap64
wrap64_fits (pos n) h = ground arith
wrap64_fits (negsuc n) h = ground arith

wraps_around : wrap64 (pos 9223372036854775807 +ℤ pos 1) ≡ negsuc 9223372036854775807
unfolding wrap64 ◌+ℤ◌
wraps_around = refl
