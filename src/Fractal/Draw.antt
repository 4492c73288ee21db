-- ===== src/Fractal/Draw.antt =====
-- The loops over the pixels: compute_image of "03. Parallel Programming/fractal.c", and the same
-- loops a pixel at a time, as a thread of fractalthread.c and fractaltask.c runs them. The color of
-- pixel (i, j) is the argument `color`; a color that the code cannot compute is none.
pub mod Painted
pub mod Serial
pub mod Ahead
use c_coding_examples_operat.Common.{
  ℕ, zero, suc, ◌+◌, ltb, if◌then◌else◌, ℤ, pos, Option, none, some,
}
use c_coding_examples_operat.Common.Run.{Run, ok, undefined, M, pure, and_then, ◌>>◌}
use c_coding_examples_operat.Bitmap.{Bitmap, bitmap_set}

abbrev pub Coloring : Type 0
Coloring = ℕ → ℕ → Option ℤ

unfoldable pub set_color : ℕ → ℕ → Option ℤ → M Bitmap (Unit {0})
set_color i j none m = undefined
set_color i j (some value) m = bitmap_set (pos i) (pos j) value m

-- `bitmap_set(bm,i,j,compute_point(x,y,max))`
unfoldable pub set_pixel : Coloring → ℕ → ℕ → M Bitmap (Unit {0})
set_pixel color i j = set_color i j (color i j)

-- The loop over `i`, and the loop over `j`: the rounds left, and the variable.
unfoldable pub row_loop : Coloring → ℕ → ℕ → ℕ → M Bitmap (Unit {0})
row_loop color zero i j = pure tt
row_loop color (suc k) i j = set_pixel color i j >> row_loop color k (i + 1) j

unfoldable pub rows_loop : Coloring → ℕ → ℕ → M Bitmap (Unit {0})
rows_loop color zero j = pure tt
rows_loop color (suc k) j = (λ m. row_loop color m.width 0 j m) >> rows_loop color k (j + 1)

unfoldable pub compute_image : Coloring → M Bitmap (Unit {0})
compute_image color m = rows_loop color m.height 0 m

-- Where a thread is in its loops: `i`, `j` and `end`.
pub record Cursor : Type 0 where
  pub column : ℕ
  pub row : ℕ
  pub stop : ℕ

-- One round of the inner loop, or the end of a row; none when the loops are over.
unfoldable pub draw : Coloring → Cursor → M Bitmap (Option Cursor)
draw color c m =
    if ltb c.row c.stop
    then if ltb c.column m.width
      then and_then (set_pixel color c.column c.row m)
          (λ _. pure (some (record c { column = c.column + 1 })))
      else ok (some (record c { column = 0; row = c.row + 1 })) m
    else ok none m
