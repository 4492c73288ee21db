-- ===== src/Fractal/Draw/Painted.antt =====
-- What the loops over the pixels of "03. Parallel Programming" paint: a pixel that has its color
-- keeps it, whoever paints next.
use c_coding_examples_operat.Common.{
  ℕ, ◌+◌, ◌*◌, ◌<◌, ◌≡◌, refl, ℤ, none, some, arith, ◌∙◌, update, inl, inr, Option-cases,
}
use c_coding_examples_operat.Common.Run.{Run, ok, undefined}
use c_coding_examples_operat.Bitmap.{Bitmap}
use c_coding_examples_operat.Bitmap.Pixel.{cell_eq, bitmap_set_inside}
use c_coding_examples_operat.Fractal.Draw.{Coloring, set_color, set_pixel}

-- Pixel (x, y) has its color.
abbrev pub At : Coloring → Bitmap → ℕ → ℕ → Type 0
At color m x y = color x y ≡ some (m.cells (y * m.width + x))

pub record Paints (color : Coloring) (m t : Bitmap) : Type 0 where
  pub same_width : t.width ≡ m.width
  pub same_height : t.height ≡ m.height
  pub keeps : (x y : ℕ) → x < m.width → At color m x y → At color t x y

pub Paints-refl : (color : Coloring) (m : Bitmap) → Paints color m m
Paints-refl color m = record { same_width = refl; same_height = refl; keeps = λ x y h a. a }

pub Paints-trans :
    (color : Coloring) (m t u : Bitmap) → Paints color m t → Paints color t u → Paints color m u
Paints-trans color m t u p q = record {
  same_width = q.same_width ∙ p.same_width;
  same_height = q.same_height ∙ p.same_height;
  keeps = λ x y h a. q.keeps x y (omega (arith, p.same_width)) (p.keeps x y h a);
}

-- The state after one pixel.
abbrev pub with_pixel : Bitmap → ℕ → ℕ → ℤ → Bitmap
with_pixel m i j value = record m { cells = update m.cells (j * m.width + i) value }

module _ (color : Coloring) (m : Bitmap) (i j : ℕ) (in_row : i < m.width) where
  with_pixel-At : (value : ℤ) → color i j ≡ some value → At color (with_pixel m i j value) i j
  with_pixel-At value e = ground arith

  with_pixel-Paints : (value : ℤ) → color i j ≡ some value → Paints color m (with_pixel m i j value)
  with_pixel-Paints value e = record {
    same_width = refl;
    same_height = refl;
    keeps = λ x y h a. ground (arith, cell_eq x y i j m.width h in_row);
  }

  -- What a call of set_pixel does.
  pub data Set : Run Bitmap (Unit {0}) → Type 0 where
    broken : color i j ≡ none → Set undefined
    set : (t : Bitmap) → Paints color m t → At color t i j → Set (ok tt t)

  pub set_pixel-Set : j < m.height → Set (set_pixel color i j m)
  unfolding set_pixel set_color
  set_pixel-Set in_column = elim (Option-cases (color i j)) [
    | inl e ↦ rw e (broken e)
    | inr (value, e) ↦
        rw (e, bitmap_set_inside m i j in_row in_column value)
          (set (with_pixel m i j value) (with_pixel-Paints value e) (with_pixel-At value e))
  ]
