-- ===== src/Bitmap/Pixel.antt =====
-- bitmap_get and bitmap_set of "03. Parallel Programming/bitmap.c" together.
use c_coding_examples_operat.Common.{
  ℕ, ◌+◌, ◌*◌, ◌%◌, ◌/◌, ◌<◌, ◌≡◌, ltb, ◌==◌, ◌&&◌, if◌then◌else◌, true, ℤ, pos, ◌∙◌, ap, sym, Bool,
  some, arith, lt→ltb, update,
}
use native.Mathlib.Nat.{mul-add-mod_self_right, mul-add-div_right, mod-eq_of_lt}
use c_coding_examples_operat.Common.Run.{ok, Returns, returns, and_then}
use c_coding_examples_operat.Bitmap.{Bitmap, cell_index, get_cell, set_cell, bitmap_get, bitmap_set}
use c_coding_examples_operat.Bitmap.Wrap.{residue, residue_lt, wrap-residue}

pub cell_lt : (i j w h : ℕ) → i < w → j < h → j * w + i < w * h
cell_lt i j w h a b = grind arith

pub cell_eq : (i j k l w : ℕ) → i < w → k < w → j * w + i ≡ l * w + k → (i ≡ k) × (j ≡ l)
cell_eq i j k l w a b e =
    let rem : i ≡ k =
      sym (mod-eq_of_lt a)
      ∙ sym (mul-add-mod_self_right j w i)
      ∙ ap (λ n. n % w) e
      ∙ mul-add-mod_self_right l w k
      ∙ mod-eq_of_lt b in
    let quot : j + i / w ≡ l + k / w =
      sym (mul-add-div_right (omega arith) j i)
      ∙ ap (λ n. n / w) e
      ∙ mul-add-div_right (omega arith) l k in
    (rem, omega (arith, quot, ap (λ n. n / w) rem))

-- The cell of the pixel at (x, y)
abbrev pub place_of : Bitmap → ℤ → ℤ → ℕ
place_of m x y = residue m.height y * m.width + residue m.width x

-- (x, y) and (u, v) are the same pixel.
abbrev pub same_pixel : Bitmap → ℤ → ℤ → ℤ → ℤ → Bool
same_pixel m x y u v =
    residue m.width x == residue m.width u && residue m.height y == residue m.height v

module _ (m : Bitmap) (wide : 0 < m.width) (high : 0 < m.height) where
  cell_index-place_of : (x y : ℤ) → cell_index m x y ≡ some (place_of m x y)
  unfolding cell_index
  cell_index-place_of x y = rw (wrap-residue m.width x wide, wrap-residue m.height y high)

  in_cells : (x y : ℤ) → ltb (place_of m x y) (m.width * m.height) ≡ true
  in_cells x y = lt→ltb (place_of m x y) (m.width * m.height) (
      cell_lt (residue m.width x) (residue m.height y) m.width m.height (residue_lt m.width x wide)
        (residue_lt m.height y high))

  pub bitmap_get_lem : (x y : ℤ) → bitmap_get x y m ≡ ok (m.cells (place_of m x y)) m
  unfolding bitmap_get get_cell
  bitmap_get_lem x y = rw (cell_index-place_of x y, in_cells x y)

  bitmap_set_lem :
      (x y value : ℤ)
      → bitmap_set x y value m ≡ ok tt (record m { cells = update m.cells (place_of m x y) value })
  unfolding bitmap_set set_cell
  bitmap_set_lem x y value = rw (cell_index-place_of x y, in_cells x y)

  painted :
      (x y u v value : ℤ)
      → update m.cells (place_of m x y) value (place_of m u v)
        ≡ (if same_pixel m x y u v then value else m.cells (place_of m u v))
  painted x y u v value = ground (
    arith,
    cell_eq (residue m.width u) (residue m.height v) (residue m.width x) (residue m.height y)
        m.width (residue_lt m.width u wide) (residue_lt m.width x wide),
  )

-- Width and height are positive. For all coordinates, also negative ones and those past the border,
-- bitmap_set and bitmap_get return. After a bitmap_set, a bitmap_get at the same pixel, that is,
-- where the coordinates have the same residues, gives the new value, and one at another pixel gives
-- what it gave before.
pub bitmap_get-bitmap_set :
    (m : Bitmap) (x y u v value : ℤ)
    → 0 < m.width
    → 0 < m.height
    → Returns
        (λ before _.
          Returns
            (λ after _. after ≡ (if same_pixel m x y u v then value else before))
            (and_then (bitmap_set x y value m) (λ _. bitmap_get u v)))
        (bitmap_get u v m)
bitmap_get-bitmap_set m x y u v value w h =
    rw
      (
        bitmap_get_lem m w h u v,
        bitmap_set_lem m w h x y value,
        bitmap_get_lem (record m { cells = update m.cells (place_of m x y) value }) w h u v,
      )
      (returns (returns (painted m w h x y u v value)))

module _ (m : Bitmap) (i j : ℕ) (in_row : i < m.width) (in_column : j < m.height) where
  place_of-pos : place_of m (pos i) (pos j) ≡ j * m.width + i
  place_of-pos = rw (mod-eq_of_lt in_row, mod-eq_of_lt in_column)

  -- Inside the image no coordinate is wrapped round.
  pub bitmap_set_inside :
      (value : ℤ)
      → bitmap_set (pos i) (pos j) value m
        ≡ ok tt (record m { cells = update m.cells (j * m.width + i) value })
  bitmap_set_inside value =
      bitmap_set_lem m (omega arith) (omega arith) (pos i) (pos j) value
      ∙ ap (λ (k : ℕ). ok tt (record m { cells = update m.cells k value })) place_of-pos

  pub bitmap_get_inside : bitmap_get (pos i) (pos j) m ≡ ok (m.cells (j * m.width + i)) m
  bitmap_get_inside =
      bitmap_get_lem m (omega arith) (omega arith) (pos i) (pos j)
      ∙ ap (λ (k : ℕ). ok (m.cells k) m) place_of-pos
