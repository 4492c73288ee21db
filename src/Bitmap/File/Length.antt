-- ===== src/Bitmap/File/Length.antt =====
-- The bytes that bitmap_save of "03. Parallel Programming/bitmap.c" writes.
use c_coding_examples_operat.Common.{
  ℕ, zero, suc, ◌+◌, ◌*◌, ◌%◌, ◌≤◌, ◌<◌, ◌≡◌, refl, ℤ, List, [], length, arith,
}
use c_coding_examples_operat.Common.Run.{ok}
use c_coding_examples_operat.Bitmap.{Bitmap}
use c_coding_examples_operat.Bitmap.Pixel.{bitmap_get_inside}
use c_coding_examples_operat.Bitmap.File.{pixel_bytes, scan_line, pad_length}

-- The bytes of the cells from `k` on, three for each of `n` cells
unfoldable pub image_bytes : (ℕ → ℤ) → ℕ → ℕ → List ℕ
image_bytes cells k zero = []
image_bytes cells k (suc n) = pixel_bytes (cells k) (image_bytes cells (k + 1) n)

pub length-image_bytes : (cells : ℕ → ℤ) (k n : ℕ) → length (image_bytes cells k n) ≡ n * 3
unfolding image_bytes
length-image_bytes cells k zero = refl
length-image_bytes cells k (suc n) = omega (arith, length-image_bytes cells (k + 1) n)

-- A scanline holds the cells of its row.
pub scan_line-image_bytes :
    (f i j : ℕ) (m : Bitmap)
    → i + f ≤ m.width
    → j < m.height
    → scan_line f i j m ≡ ok (image_bytes m.cells (j * m.width + i) f) m
unfolding scan_line image_bytes
scan_line-image_bytes zero i j m h k = refl
scan_line-image_bytes (suc f) i j m h k =
    let next : j * m.width + (i + 1) ≡ j * m.width + i + 1 = omega arith in
    rw (
      bitmap_get_inside m i j (omega arith) k,
      scan_line-image_bytes f (i + 1) j m (omega arith) k,
      next,
    )

-- A scanline with its filling
abbrev pub line_length : ℕ → ℕ
line_length w = w * 3 + pad_length w

pub pad_length_le : (w : ℕ) → pad_length w ≤ w * 3
pad_length_le w = ground arith

pub line_length-divides : (w : ℕ) → line_length w % 4 ≡ 0
line_length-divides w = ground arith
