-- ===== src/Common/Bits.antt =====
-- The bits of native numbers: a disjunction of fields that do not overlap is a sum.
use Prim.Native.Nat.{
  ℕ, zero, suc, ◌+◌, ◌*◌, ◌/◌, ◌≤◌, ◌<◌, ◌^◌, max, bit_or, bit_or-bitwise, digits,
}
use mathlib.Core.Path.{◌≡◌, refl, ◌∙◌, ap}
use native.Mathlib.Omega.{arith}

-- What bit_or stands for, with a number of digits to go
abbrev or_digits : ℕ → ℕ → ℕ → ℕ
or_digits n a b = digits (λ b. b) max n a b

or_digits-zero : (n a : ℕ) → a ≤ n → or_digits n a 0 ≡ a
or_digits-zero zero zero h = refl
or_digits-zero zero (suc a) h = absurd (omega arith)
or_digits-zero (suc n) zero h = refl
or_digits-zero (suc n) (suc a) h = omega (arith, or_digits-zero n (suc a / 2) (omega arith))

two_power : (k : ℕ) → 2 ^ suc k ≡ 2 * 2 ^ k
two_power k = omega arith

or_digits-field : (k n p a b : ℕ) → a ≡ p * 2 ^ k → b < 2 ^ k → a ≤ n → or_digits n a b ≡ a + b
or_digits-field zero n p a zero e h l = or_digits-zero n a l ∙ omega arith
or_digits-field zero n p a (suc b) e h l = absurd (omega arith)
or_digits-field (suc k) zero p zero b e h l = omega arith
or_digits-field (suc k) (suc n) p zero b e h l = omega arith
or_digits-field (suc k) zero p (suc a) b e h l = absurd (omega arith)
or_digits-field (suc k) (suc n) p (suc a) b e h l =
    let double : p * 2 ^ suc k ≡ 2 * (p * 2 ^ k) =
      ap (λ (t : ℕ). p * t) (two_power k) ∙ grind arith in
    let half : suc a / 2 ≡ p * 2 ^ k = omega (arith, e, double) in
    omega (
      arith,
      e,
      double,
      or_digits-field k n p (suc a / 2) (b / 2) half (omega (arith, h)) (omega arith),
    )

-- A field above the k lowest bits, and a number in those
pub bit_or-field : (k p b : ℕ) → b < 2 ^ k → bit_or (p * 2 ^ k) b ≡ p * 2 ^ k + b
bit_or-field k p b h =
    bit_or-bitwise (p * 2 ^ k) b
    ∙ or_digits-field k (p * 2 ^ k) p (p * 2 ^ k) b refl h (omega arith)
