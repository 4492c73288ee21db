-- ===== src/Bitmap.antt =====
-- "03. Parallel Programming/bitmap.c": an image, and its pixels. Coordinates wrap round.
pub mod Wrap
pub mod Pixel
pub mod Reset
pub mod Rgba
pub mod File
mod Tests
use c_coding_examples_operat.Common.{
  ℕ, zero, suc, ◌+◌, ◌*◌, ltb, if◌then◌else◌, update, ℤ, pos, negsuc, pos_part, neg_part, leb_ℤ,
  ltb_ℤ, add_nat, sub_nat, Option, none, some,
}
use c_coding_examples_operat.Common.Run.{Run, ok, undefined, out_of_fuel, M, and_then}

infixl 5 ◌>>=◌
abbrev pub ◌>>=◌ : {A B : Type 0} → Option A → (A → Option B) → Option B
◌>>=◌ none k = none
◌>>=◌ (some a) k = k a

-- `width` and `height` are positive, and `cells` is `data`, with width * height ints.
pub record Bitmap : Type 0 where
  pub width : ℕ
  pub height : ℕ
  pub cells : ℕ → ℤ

-- `while(x>=m->width) x-=m->width;`, on fuel
unfoldable pub wrap_down : ℕ → ℕ → ℤ → Option ℤ
wrap_down zero w x = none
wrap_down (suc f) w x =
    let rest = wrap_down f w (sub_nat x w) in if leb_ℤ (pos w) x then rest else some x

-- `while(x<0) x+=m->width;`, on fuel
unfoldable pub wrap_up : ℕ → ℕ → ℤ → Option ℤ
wrap_up zero w x = none
wrap_up (suc f) w x =
    let rest = wrap_up f w (add_nat x w) in if ltb_ℤ x (pos 0) then rest else some x

-- The two loops; no more than |x| rounds of them change `x`.
unfoldable pub wrap : ℕ → ℤ → Option ℤ
wrap w x = do y ← wrap_down (suc (pos_part x)) w x; wrap_up (suc (neg_part x)) w y

-- `y*m->width+x`, when the loops have ended
unfoldable pub cell_index : Bitmap → ℤ → ℤ → Option ℕ
cell_index m x y = do
  i ← wrap m.width x
  j ← wrap m.height y
  some (pos_part j * m.width + pos_part i)

unfoldable pub get_cell : Option ℕ → M Bitmap ℤ
get_cell none m = out_of_fuel
get_cell (some k) m = if ltb k (m.width * m.height) then ok (m.cells k) m else undefined

unfoldable pub set_cell : ℤ → Option ℕ → M Bitmap (Unit {0})
set_cell value none m = out_of_fuel
set_cell value (some k) m =
    if ltb k (m.width * m.height)
    then ok tt (record m { cells = update m.cells k value })
    else undefined

unfoldable pub bitmap_get : ℤ → ℤ → M Bitmap ℤ
bitmap_get x y m = get_cell (cell_index m x y) m

unfoldable pub bitmap_set : ℤ → ℤ → ℤ → M Bitmap (Unit {0})
bitmap_set x y value m = set_cell value (cell_index m x y) m

-- The loop of bitmap_reset: the rounds left, and `i`.
unfoldable pub reset_from : ℕ → ℕ → ℤ → M Bitmap (Unit {0})
reset_from zero i value m = ok tt m
reset_from (suc k) i value m =
    and_then (set_cell value (some i) m) (λ _. reset_from k (i + 1) value)

unfoldable pub bitmap_reset : ℤ → M Bitmap (Unit {0})
bitmap_reset value m = reset_from (m.width * m.height) 0 value m
