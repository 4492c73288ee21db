-- ===== src/Bitmap/Reset.antt =====
-- bitmap_reset of "03. Parallel Programming/bitmap.c".
use c_coding_examples_operat.Common.{
  ℕ, zero, suc, ◌+◌, ◌*◌, ◌<◌, ◌≤◌, ◌≡◌, refl, ℤ, arith, lt→ltb, update, ◌∙◌, ap, subst,
}
use c_coding_examples_operat.Common.Run.{Returns, returns, Returns-mono, Returns-bind, and_then}
use c_coding_examples_operat.Bitmap.{Bitmap, set_cell, reset_from, bitmap_get, bitmap_reset}
use c_coding_examples_operat.Bitmap.Wrap.{residue, residue_lt}
use c_coding_examples_operat.Bitmap.Pixel.{cell_lt, place_of, bitmap_get_lem}

-- From cell `i` on, the cells hold `value`; those before are as they were.
record Filled (m : Bitmap) (i : ℕ) (value : ℤ) (t : Bitmap) : Type 0 where
  width : t.width ≡ m.width
  height : t.height ≡ m.height
  before : (k : ℕ) → k < i → t.cells k ≡ m.cells k
  after : (k : ℕ) → i ≤ k → k < m.width * m.height → t.cells k ≡ value

reset_from-Filled :
    (n i : ℕ) (value : ℤ) (m : Bitmap)
    → i + n ≡ m.width * m.height
    → Returns (λ _ t. Filled m i value t) (reset_from n i value m)
unfolding reset_from set_cell
reset_from-Filled zero i value m e = returns (record {
  width = refl;
  height = refl;
  before = λ k l. refl;
  after = λ k l h. absurd (omega arith);
})
reset_from-Filled (suc n) i value m e = rw (lt→ltb i (m.width * m.height) (omega arith)) (
    Returns-mono
      (reset_from-Filled n (i + 1) value (record m { cells = update m.cells i value })
        (omega arith))
      λ _ t f. record {
        width = f.width;
        height = f.height;
        before = λ k l. ground (arith, f.before k);
        after = λ k l h. ground (arith, f.before k, f.after k);
      })

-- With a positive width and height bitmap_reset returns, and every bitmap_get then gives the value,
-- whatever its coordinates are.
pub bitmap_get-bitmap_reset :
    (m : Bitmap) (x y value : ℤ)
    → 0 < m.width
    → 0 < m.height
    → Returns (λ out _. out ≡ value) (and_then (bitmap_reset value m) (λ _. bitmap_get x y))
unfolding bitmap_reset
bitmap_get-bitmap_reset m x y value w h =
    Returns-bind (reset_from-Filled (m.width * m.height) 0 value m (omega arith)) λ _ t f.
      let w' : 0 < t.width = omega (arith, f.width) in
      let h' : 0 < t.height = omega (arith, f.height) in
      let size : t.width * t.height ≡ m.width * m.height =
        ap (λ n. n * t.height) f.width ∙ ap (λ n. m.width * n) f.height in
      let in_size : place_of t x y < t.width * t.height =
        cell_lt (residue t.width x) (residue t.height y) t.width t.height (residue_lt t.width x w')
          (residue_lt t.height y h') in
      rw (bitmap_get_lem t w' h' x y) (
        returns
          (f.after (place_of t x y) (omega arith) (subst (λ n. place_of t x y < n) size in_size)))

-- bitmap_reset returns, and leaves the width and the height.
pub bitmap_reset-same_size :
    (m : Bitmap) (value : ℤ)
    → Returns (λ _ t. (t.width ≡ m.width) × (t.height ≡ m.height)) (bitmap_reset value m)
unfolding bitmap_reset
bitmap_reset-same_size m value =
    Returns-mono (reset_from-Filled (m.width * m.height) 0 value m (omega arith))
      λ _ t f. (f.width, f.height)
