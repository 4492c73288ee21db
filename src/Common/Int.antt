-- ===== src/Common/Int.antt =====
-- The C type `int`, as an integer: the values that the programs compare, divide and store.
use Prim.Native.Nat.{ℕ, suc, ◌+◌, ◌-◌, ◌/◌, ◌%◌, ◌<◌, ◌^◌}
use mathlib.Core.Bool.{Bool, false}
use c_coding_examples_operat.Common.Tests.{ltb, leb, ◌==◌, if◌then◌else◌}

-- `negsuc n` is -(n + 1).
pub data ℤ : Type 0 where
  pos : ℕ → ℤ
  negsuc : ℕ → ℤ

abbrev pub pos_part : ℤ → ℕ
pos_part (pos n) = n
pos_part (negsuc n) = 0

abbrev pub neg_part : ℤ → ℕ
neg_part (pos n) = 0
neg_part (negsuc n) = suc n

abbrev pub ltb_ℤ : ℤ → ℤ → Bool
ltb_ℤ a b = ltb (pos_part a + neg_part b) (pos_part b + neg_part a)

abbrev pub leb_ℤ : ℤ → ℤ → Bool
leb_ℤ a b = leb (pos_part a + neg_part b) (pos_part b + neg_part a)

-- `z == 0` and `!z`
abbrev pub is_zero : ℤ → Bool
is_zero (pos n) = n == 0
is_zero (negsuc n) = false

-- a - b, as an integer.
abbrev pub sub_ℕ : ℕ → ℕ → ℤ
sub_ℕ a b = if leb b a then pos (a - b) else negsuc (b - a - 1)

-- `z + n` for a number `n` that is not negative
abbrev pub add_nat : ℤ → ℕ → ℤ
add_nat (pos a) n = pos (a + n)
add_nat (negsuc a) n = sub_ℕ n (suc a)

-- `z / d` for a positive `d`: C rounds towards zero.
abbrev pub div_nat : ℤ → ℕ → ℤ
div_nat (pos a) d = pos (a / d)
div_nat (negsuc a) d = sub_ℕ 0 (suc a / d)

-- the values of a 32-bit `int`
abbrev pub IsInt : ℤ → Type 0
IsInt (pos n) = n < 2 ^ 31
IsInt (negsuc n) = n < 2 ^ 31

-- `z - n` for a number `n` that is not negative
abbrev pub sub_nat : ℤ → ℕ → ℤ
sub_nat (pos a) n = sub_ℕ a n
sub_nat (negsuc a) n = negsuc (a + n)

-- `z % d == 0`
abbrev pub divides : ℕ → ℤ → Bool
divides d (pos a) = a % d == 0
divides d (negsuc a) = suc a % d == 0

-- `z == -1`
abbrev pub is_minus_one : ℤ → Bool
is_minus_one (pos n) = false
is_minus_one (negsuc n) = n == 0
