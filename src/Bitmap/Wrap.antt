-- ===== src/Bitmap/Wrap.antt =====
-- The loops of bitmap_get and bitmap_set in "03. Parallel Programming/bitmap.c" end, at the
-- residue.
use c_coding_examples_operat.Common.{
  ℕ, zero, suc, ◌+◌, ◌-◌, ◌%◌, ◌<◌, ◌≤◌, ◌≡◌, ltb, true, false, ℤ, pos, negsuc, leb, ◌∙◌, ap, sub_ℕ,
  some, arith, lt-cases, inl, inr,
}
use c_coding_examples_operat.Bitmap.{wrap_down, wrap_up, wrap}

-- The place of `x` in a row of `w` places that is repeated on both sides
abbrev pub residue : ℕ → ℤ → ℕ
residue w (pos a) = a % w
residue w (negsuc a) = w - 1 - a % w

pub residue_lt : (w : ℕ) (x : ℤ) → 0 < w → residue w x < w
residue_lt w (pos a) h = grind arith
residue_lt w (negsuc a) h = omega arith

mod_sub : (w a : ℕ) → 0 < w → w ≤ a → (a - w) % w ≡ a % w
mod_sub w a h k = grind arith

wrap_down-pos : (f w a : ℕ) → 0 < w → a < f → wrap_down f w (pos a) ≡ some (pos (a % w))
unfolding wrap_down
wrap_down-pos zero w a h k = absurd (omega arith)
wrap_down-pos (suc f) w a h k = elim (lt-cases a w) [
  | inl l ↦
      let e : leb (w + 0) (a + 0) ≡ false = ground arith in
      let m : a % w ≡ a = grind arith in rw (e, m)
  | inr l ↦
      let e : leb (w + 0) (a + 0) ≡ true = ground arith in
      let g : leb w a ≡ true = ground arith in
      rw (e, g, wrap_down-pos f w (a - w) h (omega arith), mod_sub w a h l)
]

wrap_up-pos : (f w a : ℕ) → wrap_up (suc f) w (pos a) ≡ some (pos a)
unfolding wrap_up
wrap_up-pos f w a = let e : ltb (a + 0) 0 ≡ false = ground arith in rw e

wrap_up-step : (f w a : ℕ) → wrap_up (suc f) w (negsuc a) ≡ wrap_up f w (sub_ℕ w (suc a))
unfolding wrap_up
wrap_up-step f w a = let e : ltb 0 (0 + suc a) ≡ true = ground arith in rw e

wrap_up-negsuc :
    (f w a : ℕ) → 0 < w → a < f → wrap_up (suc f) w (negsuc a) ≡ some (pos (residue w (negsuc a)))
wrap_up-negsuc zero w a h k = absurd (omega arith)
wrap_up-negsuc (suc f) w a h k = elim (lt-cases a w) [
  | inl l ↦
      let e : sub_ℕ w (suc a) ≡ pos (w - suc a) = ground arith in
      let m : a % w ≡ a = grind arith in
      let r : w - suc a ≡ w - 1 - a % w = omega (arith, m) in
      wrap_up-step (suc f) w a
      ∙ ap (wrap_up (suc f) w) e
      ∙ wrap_up-pos f w (w - suc a)
      ∙ ap (λ (n : ℕ). some (pos n)) r
  | inr l ↦
      let e : sub_ℕ w (suc a) ≡ negsuc (a - w) = ground arith in
      wrap_up-step (suc f) w a
      ∙ ap (wrap_up (suc f) w) e
      ∙ wrap_up-negsuc f w (a - w) h (omega arith)
      ∙ ap (λ (n : ℕ). some (pos (w - 1 - n))) (mod_sub w a h l)
]

wrap_down-negsuc : (f w a : ℕ) → wrap_down (suc f) w (negsuc a) ≡ some (negsuc a)
unfolding wrap_down
wrap_down-negsuc f w a = let e : leb (w + suc a) 0 ≡ false = ground arith in rw e

-- With a positive width the loops end, at the residue of the coordinate.
pub wrap-residue : (w : ℕ) (x : ℤ) → 0 < w → wrap w x ≡ some (pos (residue w x))
unfolding wrap
wrap-residue w (pos a) h = rw (wrap_down-pos (suc a) w a h (omega arith), wrap_up-pos 0 w (a % w))
wrap-residue w (negsuc a) h =
    rw (wrap_down-negsuc 0 w a) (wrap_up-negsuc (suc a) w a h (omega arith))
