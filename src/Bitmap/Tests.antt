-- ===== src/Bitmap/Tests.antt =====
-- An image of 4 by 3 pixels.
use c_coding_examples_operat.Common.{
  ◌≡◌, refl, if◌then◌else◌, ℕ, ◌==◌, ℤ, List, true, some, pos, negsuc, arith,
}
use c_coding_examples_operat.Common.Run.{Returns, and_then}
use c_coding_examples_operat.Bitmap.{Bitmap, bitmap_get, bitmap_set}
use c_coding_examples_operat.Bitmap.Pixel.{same_pixel, bitmap_get-bitmap_set}
use c_coding_examples_operat.Bitmap.File.{bitmap_save, loaded, loaded_pixel, bitmap}
use c_coding_examples_operat.Bitmap.File.Padding.{column, bitmap_save_padding}
use c_coding_examples_operat.Bitmap.Rgba.{get_green, get_blue}
use c_coding_examples_operat.Bitmap.File.RoundTrip.{Restored, bitmap-bitmap_save}

abbrev image : Bitmap
image = record { width = 4; height = 3; cells = λ k. pos k }

-- (-1, 5) and (7, 2) are the same pixel.
bitmap_get-bitmap_set_example :
    Returns
      (λ before _.
        Returns
          (λ after _.
            after ≡ (if same_pixel image (negsuc 0) (pos 5) (pos 7) (pos 2) then pos 9 else before))
          (and_then
            (bitmap_set (negsuc 0) (pos 5) (pos 9) image)
            (λ _. bitmap_get (pos 7) (pos 2))))
      (bitmap_get (pos 7) (pos 2) image)
bitmap_get-bitmap_set_example =
    bitmap_get-bitmap_set image (negsuc 0) (pos 5) (pos 7) (pos 2) (pos 9) (omega arith)
      (omega arith)

bitmap-bitmap_save_example :
    Returns
      (λ r t.
        (t ≡ image)
        × (r.0 ≡ 1)
        × ((file : List ℕ) × (r.1 ≡ some file)
            × Restored image (bitmap (some file) (λ _. 0) (λ _. true) (λ _. pos 0))))
      (bitmap_save true image)
bitmap-bitmap_save_example =
    bitmap-bitmap_save image (λ _. 0) (λ _. true) (λ _. pos 0) (omega arith) (omega arith)
      (omega arith) (omega arith) refl refl

bitmap_save_padding_example :
    Returns
      (λ r _.
        (file : List ℕ) × (r.1 ≡ some file)
        × ((out : ℕ → ℤ) × (bitmap (some file) (λ _. 0) (λ _. true) (λ _. pos 0)
              ≡ loaded (pos 1) (pos 2) out)
            × (out 1
                ≡ loaded_pixel
                    (pos (get_blue (pos 7)))
                    (pos (get_blue (pos 513)))
                    (pos (get_green (pos 513))))))
      (bitmap_save true (column (λ k. if k == 0 then pos 7 else pos 513)))
bitmap_save_padding_example =
    bitmap_save_padding (λ k. if k == 0 then pos 7 else pos 513) (λ _. 0) (λ _. true) (λ _. pos 0)
      refl refl
