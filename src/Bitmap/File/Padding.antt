-- ===== src/Bitmap/File/Padding.antt =====
-- bitmap of "03. Parallel Programming/bitmap.c" does not pass over the filling of the lines.
use c_coding_examples_operat.Common.{
  ℕ, ◌≡◌, refl, ◌∙◌, ap, Bool, true, ℤ, pos, some, List, [], arith,
}
use c_coding_examples_operat.Common.Run.{Returns, returns}
use c_coding_examples_operat.Bitmap.{Bitmap}
use c_coding_examples_operat.Bitmap.Rgba.{get_green, get_blue}
use c_coding_examples_operat.Bitmap.File.{
  save_lines, bitmap_save, loaded, loaded_pixel, load_pixels, fill, bitmap,
}
use c_coding_examples_operat.Bitmap.File.Length.{image_bytes, scan_line-image_bytes}
use c_coding_examples_operat.Bitmap.File.RoundTrip.{header_bytes-accepted, bitmap_create-loaded}

abbrev pub column : (ℕ → ℤ) → Bitmap
column cells = record { width = 1; height = 2; cells = cells }

-- An image of one pixel above another, which bitmap_save saves and bitmap loads again: whatever the
-- colors are, the second pixel gets the blue of the first one as its blue, its own blue as its green,
-- and its own green as its red.
pub bitmap_save_padding :
    (cells : ℕ → ℤ) (stale : ℕ → ℕ) (allocates : ℕ → Bool) (stale_data : ℕ → ℤ)
    → allocates 16 ≡ true
    → allocates 8 ≡ true
    → Returns
        (λ r _.
          (file : List ℕ) × (r.1 ≡ some file)
          × ((out : ℕ → ℤ) × (bitmap (some file) stale allocates stale_data
                ≡ loaded (pos 1) (pos 2) out)
              × (out 1
                  ≡ loaded_pixel
                      (pos (get_blue (cells 0)))
                      (pos (get_blue (cells 1)))
                      (pos (get_green (cells 1))))))
        (bitmap_save true (column cells))
unfolding bitmap_save save_lines image_bytes load_pixels
bitmap_save_padding cells stale allocates stale_data node enough =
    rw
      (
        scan_line-image_bytes 1 0 0 (column cells) (omega arith) (omega arith),
        scan_line-image_bytes 1 0 1 (column cells) (omega arith) (omega arith),
      )
      (returns (
        _,
        refl,
        (
          _,
          header_bytes-accepted 1 2 _ stale allocates stale_data (omega arith) (omega arith)
              ∙ ap (fill _) (
                  bitmap_create-loaded [] stale allocates stale_data 1 2 node (omega arith) enough),
          refl,
        ),
      ))
