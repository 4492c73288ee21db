-- ===== src/Fractal/Color/Gray.antt =====
-- The colors of "03. Parallel Programming/fractal.c" and mandel.c are shades of gray.
use c_coding_examples_operat.Common.{
  ℕ, zero, suc, ◌+◌, ◌*◌, ◌/◌, ◌^◌, ◌<◌, ◌≤◌, ◌≡◌, ltb, true, ℤ, pos, Option, some, arith, lt→ltb,
  Bool-cases, inl, inr, ◌∙◌, sym, ap,
}
use c_coding_examples_operat.Common.Run.{Returns}
use c_coding_examples_operat.Bitmap.{Bitmap}
use c_coding_examples_operat.Fractal.Draw.{compute_image}
use c_coding_examples_operat.Fractal.Draw.Serial.{Complete, compute_image-Complete}
use c_coding_examples_operat.Bitmap.Rgba.{make_rgba}
use c_coding_examples_operat.Fractal.Color.{
  Doubles, shade, value_to_color, iteration_to_color, number, newton, iterate, compute_point,
  escape, iterations_at_point, View, coordinate, coloring,
}

-- a color with equal parts, none above 255
abbrev pub IsGray : Option ℤ → Type 0
IsGray o = (gray : ℕ) × (gray ≤ 255) × (o ≡ some (pos (make_rgba gray gray gray 0)))

-- The largest `max` for which 255 * max is an int
abbrev pub max_limit : ℕ
max_limit = 8421504

shade_lem :
    (n m : ℕ)
    → n ≤ 255 * suc m
    → suc m ≤ max_limit
    → (gray : ℕ) × (gray ≤ 255) × (shade n (pos (suc m)) ≡ some gray)
unfolding shade
shade_lem n m h k =
    let small : n < 2 ^ 31 = omega arith in
    let e : ltb n (2 ^ 31) ≡ true = lt→ltb n (2 ^ 31) small in (n / suc m, grind arith, rw e)

module _ (d : Doubles) where
  iterate_le : (k iter : ℕ) (z : d.Complex) → (iterate d k iter z).0 ≤ iter + k
  unfolding iterate
  iterate_le zero iter z = omega arith
  iterate_le (suc k) iter z = elim (Bool-cases (d.lt (d.cabs z) (number d 4))) [
    | inl e ↦ rw e (omega (arith, iterate_le k (iter + 1) (newton d z)))
    | inr e ↦ rw e (omega arith)
  ]

  escape_le : (k iter : ℕ) (x0 y0 x y : d.Real) → escape d k iter x0 y0 x y ≤ iter + k
  unfolding escape
  escape_le zero iter x0 y0 x y = omega arith
  escape_le (suc k) iter x0 y0 x y =
      elim (Bool-cases (d.le (d.add (d.mul x x) (d.mul y y)) (number d 4))) [
        | inl e ↦ rw e (
            omega (
              arith,
              escape_le k (iter + 1) x0 y0 (d.add (d.sub (d.mul x x) (d.mul y y)) x0)
                  (d.add (d.mul (d.mul (number d 2) x) y) y0),
            ))
        | inr e ↦ rw e (omega arith)
      ]

  -- For `max` from 1 to 8421504, compute_point of fractal.c gives a shade of gray from 0 to 255, at
  -- every point and whatever the arithmetic of doubles is, and so does iterations_at_point of
  -- mandel.c.
  pub point-IsGray :
      (x y : d.Real) (max : ℕ)
      → 0 < max
      → max ≤ max_limit
      → IsGray (compute_point d x y (pos max)) × IsGray (iterations_at_point d x y (pos max))
  unfolding compute_point value_to_color iterations_at_point iteration_to_color
  point-IsGray x y zero h k = absurd (omega arith)
  point-IsGray x y (suc m) h k =
      let (g, a, e) =
        shade_lem ((iterate d (suc m) 0 (d.complex x y)).0 * 255) m
          (omega (arith, iterate_le (suc m) 0 (d.complex x y))) k in
      let (g', a', e') =
        shade_lem (255 * escape d (suc m) 0 x y x y) m (omega (arith, escape_le (suc m) 0 x y x y))
          k in
      ((g, a, rw e), (g', a', rw e'))

  -- With `max` from 1 to 8421504 the program fractal computes its image: compute_image returns, and
  -- every pixel has the color of its point.
  pub fractal_image-Complete :
      (v : View d) (max : ℕ) (m : Bitmap)
      → v.max ≡ pos max
      → 0 < max
      → max ≤ max_limit
      → Returns
          (λ _ t. Complete (coloring d (compute_point d) v m.width m.height) m t)
          (compute_image (coloring d (compute_point d) v m.width m.height) m)
  fractal_image-Complete v max m e h k =
      compute_image-Complete (coloring d (compute_point d) v m.width m.height) m λ x y a b n.
        let px : d.Real = coordinate d v.xmin v.xmax x m.width in
        let py : d.Real = coordinate d v.ymin v.ymax y m.height in
        let gray : IsGray (compute_point d px py (pos max)) = (point-IsGray px py max h k).0 in
        cc (sym n ∙ ap (compute_point d px py) e ∙ gray.2)
