-- ===== src/Fractal/Draw/Serial.antt =====
-- compute_image of "03. Parallel Programming/fractal.c" paints the whole image.
use c_coding_examples_operat.Common.{
  ℕ, zero, suc, ◌+◌, ◌<◌, ◌≤◌, ◌≡◌, ◌≢◌, none, arith, sym, subst, inl, inr, ℕ-cases,
}
use c_coding_examples_operat.Common.Run.{Run, Returns, returns, Returns-bind, Returns-mono}
use c_coding_examples_operat.Bitmap.{Bitmap}
use c_coding_examples_operat.Fractal.Draw.{Coloring, row_loop, rows_loop, compute_image}
use c_coding_examples_operat.Fractal.Draw.Painted.{
  At, Paints, Paints-refl, Paints-trans, Set, broken, set, set_pixel-Set,
}

-- Every pixel has its color.
pub record Complete (color : Coloring) (m t : Bitmap) : Type 0 where
  pub same_width : t.width ≡ m.width
  pub same_height : t.height ≡ m.height
  pub painted : (x y : ℕ) → x < m.width → y < m.height → At color t x y

-- The code can compute the color of each pixel.
abbrev pub Colored : Coloring → Bitmap → Type 0
Colored color m = (x y : ℕ) → x < m.width → y < m.height → color x y ≢ none

module _ (color : Coloring) where
  Set-Returns :
      (m : Bitmap) (i j : ℕ) (h : i < m.width) {r : Run Bitmap (Unit {0})}
      → Set color m i j h r
      → color i j ≢ none
      → Returns (λ _ t. Paints color m t × At color t i j) r
  Set-Returns m i j h (broken e) n = absurd (n e)
  Set-Returns m i j h (set t p a) n = returns (p, a)

  -- Row `j` from column `i` on
  abbrev RowPainted : Bitmap → ℕ → ℕ → Bitmap → Type 0
  RowPainted m i j t = Paints color m t × ((x : ℕ) → i ≤ x → x < m.width → At color t x j)

  row_loop-RowPainted :
      (k i j : ℕ) (m : Bitmap)
      → i + k ≡ m.width
      → j < m.height
      → Colored color m
      → Returns (λ _ t. RowPainted m i j t) (row_loop color k i j m)
  unfolding row_loop
  row_loop-RowPainted zero i j m e h c =
      returns (Paints-refl color m, λ x a b. absurd (omega arith))
  row_loop-RowPainted (suc k) i j m e h c =
      let first : i < m.width = omega arith in
      Returns-bind (Set-Returns m i j first (set_pixel-Set color m i j first h) (c i j first h))
        λ _ t (p, a).
          Returns-mono
            (row_loop-RowPainted k (i + 1) j t (omega (arith, p.same_width))
              (omega (arith, p.same_height))
              (λ x y u v. c x y (omega (arith, p.same_width)) (omega (arith, p.same_height))))
            λ _ u (q, b). (
              Paints-trans color m t u p q,
              λ x l r. elim (ℕ-cases x i) [
                | inl same ↦
                    subst (λ n. At color u n j) (sym same)
                      (q.keeps i j (omega (arith, p.same_width)) a)
                | inr other ↦ b x (omega arith) (omega (arith, p.same_width))
              ],
            )

  abbrev RowsPainted : Bitmap → ℕ → Bitmap → Type 0
  RowsPainted m j t =
      Paints color m t × ((x y : ℕ) → x < m.width → j ≤ y → y < m.height → At color t x y)

  rows_loop-RowsPainted :
      (k j : ℕ) (m : Bitmap)
      → j + k ≡ m.height
      → Colored color m
      → Returns (λ _ t. RowsPainted m j t) (rows_loop color k j m)
  unfolding rows_loop
  rows_loop-RowsPainted zero j m e c =
      returns (Paints-refl color m, λ x y h a b. absurd (omega arith))
  rows_loop-RowsPainted (suc k) j m e c =
      Returns-bind (row_loop-RowPainted m.width 0 j m (omega arith) (omega arith) c) λ _ t (p, a).
        Returns-mono
          (rows_loop-RowsPainted k (j + 1) t (omega (arith, p.same_height))
            (λ x y u v. c x y (omega (arith, p.same_width)) (omega (arith, p.same_height))))
          λ _ u (q, b). (
            Paints-trans color m t u p q,
            λ x y h l r. elim (ℕ-cases y j) [
              | inl same ↦
                  subst (λ n. At color u x n) (sym same)
                    (q.keeps x j (omega (arith, p.same_width)) (a x (omega arith) h))
              | inr other ↦
                  b x y (omega (arith, p.same_width)) (omega arith) (omega (arith, p.same_height))
            ],
          )

-- When the code can compute the color of each pixel, compute_image returns, and then every pixel of
-- the image has its color.
pub compute_image-Complete :
    (color : Coloring) (m : Bitmap)
    → Colored color m
    → Returns (λ _ t. Complete color m t) (compute_image color m)
unfolding compute_image
compute_image-Complete color m c =
    Returns-mono (rows_loop-RowsPainted color m.height 0 m (omega arith) c) λ _ t (p, a). record {
      same_width = p.same_width;
      same_height = p.same_height;
      painted = λ x y h k. a x y h (omega arith) k;
    }
