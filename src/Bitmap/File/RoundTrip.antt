-- ===== src/Bitmap/File/RoundTrip.antt =====
-- bitmap of "03. Parallel Programming/bitmap.c" behind bitmap_save.
use c_coding_examples_operat.Common.{
  ℕ, zero, suc, ◌+◌, ◌*◌, ◌%◌, ◌^◌, ◌≤◌, ◌<◌, ◌≡◌, refl, ◌==◌, ◌&&◌, if◌then◌else◌, ltb, true,
  false, ℤ, pos, is_zero, some, List, [], ◌++◌, drop, Bool, update, update_self, update_ne, arith,
  ap, ◌∙◌, lt→ltb, Bool-cases, ℕ-cases, inl, inr,
}
use c_coding_examples_operat.Common.Bytes.{
  pattern_of, int_of, byte_of, bytes_lem, int_of-pattern_of,
}
use c_coding_examples_operat.Common.Run.{ok, Returns, returns}
use c_coding_examples_operat.Bitmap.{Bitmap}
use c_coding_examples_operat.Bitmap.Rgba.{make_rgba_int-opaque, get_red, get_green, get_blue}
use c_coding_examples_operat.Bitmap.File.{
  header_bytes, save_header, pixel_bytes, pad_length, save_lines, bitmap_save, Loaded, loaded,
  bitmap_create, byte_at, int_at, short_at, loaded_pixel, load_pixels, fill, bitmap,
}
use c_coding_examples_operat.Bitmap.File.Length.{image_bytes, scan_line-image_bytes}

-- What is left of a color: its red, green and blue, opaque; and 0 for black.
abbrev pub opaque : ℤ → ℤ
opaque z =
    let colors = pattern_of z % 2 ^ 24 in
    if colors == 0 then pos 0 else int_of (255 * 2 ^ 24 + colors)

loaded_pixel-opaque :
    (z : ℤ) → loaded_pixel (pos (get_blue z)) (pos (get_green z)) (pos (get_red z)) ≡ opaque z
loaded_pixel-opaque z = elim (Bool-cases (pattern_of z % 2 ^ 24 == 0)) [
  | inl e ↦
      let b : (get_blue z == 0) ≡ true = ground arith in
      let g : (get_green z == 0) ≡ true = ground arith in
      let r : (get_red z == 0) ≡ true = ground arith in rw (e, b, g, r)
  | inr e ↦
      let some_color : (get_blue z == 0 && get_green z == 0 && get_red z == 0) ≡ false =
        ground arith in
      let sum : 255 * 2 ^ 24 + (get_red z * 2 ^ 16 + (get_green z * 2 ^ 8 + get_blue z))
          ≡ 255 * 2 ^ 24 + pattern_of z % 2 ^ 24 =
        omega arith in
      rw
        (
          e,
          some_color,
          make_rgba_int-opaque (get_red z) (get_green z) (get_blue z) (omega arith) (omega arith)
              (omega arith),
        )
        (ap int_of sum)
]

image_bytes-append :
    (cells : ℕ → ℤ) (k a b : ℕ)
    → image_bytes cells k a ++ image_bytes cells (k + a) b ≡ image_bytes cells k (a + b)
unfolding image_bytes
image_bytes-append cells k zero b =
    ap (λ (n : ℕ). image_bytes cells n b) (let e : k + 0 ≡ k = omega arith in e)
    ∙ ap (λ (n : ℕ). image_bytes cells k n) (let e : b ≡ 0 + b = omega arith in e)
image_bytes-append cells k (suc a) b =
    ap (pixel_bytes (cells k)) (
      ap (λ (n : ℕ). image_bytes cells (k + 1) a ++ image_bytes cells n b)
        (let e : k + suc a ≡ k + 1 + a = omega arith in e)
      ∙ image_bytes-append cells (k + 1) a b)
    ∙ ap (λ (n : ℕ). image_bytes cells k n) (let e : suc (a + b) ≡ suc a + b = omega arith in e)

-- Where the rows are full, the lines are the cells one after the other.
save_lines-image_bytes :
    (f j : ℕ) (m : Bitmap)
    → j + f ≤ m.height
    → pad_length m.width ≡ 0
    → save_lines m.width f j m ≡ ok (image_bytes m.cells (j * m.width) (f * m.width)) m
unfolding save_lines image_bytes
save_lines-image_bytes zero j m h p =
    ap (λ (n : ℕ). ok (image_bytes m.cells (j * m.width) n) m)
      (let e : 0 ≡ 0 * m.width = omega arith in e)
save_lines-image_bytes (suc f) j m h p =
    let start : j * m.width + 0 ≡ j * m.width = omega arith in
    let next : (j + 1) * m.width ≡ j * m.width + m.width = grind arith in
    let all : m.width + f * m.width ≡ suc f * m.width = grind arith in
    rw
      (
        scan_line-image_bytes m.width 0 j m (omega arith) (omega arith),
        save_lines-image_bytes f (j + 1) m (omega arith) p,
        p,
        start,
        next,
      )
      (ap (λ (xs : List ℕ). ok xs m)
        (image_bytes-append m.cells (j * m.width) m.width (f * m.width)
          ∙ ap (λ (n : ℕ). image_bytes m.cells (j * m.width) n) all))

-- The pixels that are read are opaque, and the cells before them as they were.
load_pixels-opaque :
    (f i : ℕ) (cells before : ℕ → ℤ) (k : ℕ)
    → k < i + f
    → load_pixels f i (image_bytes cells i f) before k
      ≡ (if ltb k i then before k else opaque (cells k))
unfolding load_pixels image_bytes
load_pixels-opaque zero i cells before k h =
    let e : ltb k i ≡ true = lt→ltb k i (omega arith) in rw e
load_pixels-opaque (suc f) i cells before k h =
    load_pixels-opaque f (i + 1) cells
      (update before i (
        loaded_pixel (pos (get_blue (cells i))) (pos (get_green (cells i)))
          (pos (get_red (cells i)))))
      k (omega arith)
    ∙ elim (ℕ-cases k i) [
      | inl e ↦
          let new : ltb k (i + 1) ≡ true = lt→ltb k (i + 1) (omega arith) in
          let old : ltb k i ≡ false = ground arith in
          rw (new, old, e)
            (update_self before i (
                loaded_pixel (pos (get_blue (cells i))) (pos (get_green (cells i)))
                  (pos (get_red (cells i))))
              ∙ loaded_pixel-opaque (cells i))
      | inr e ↦
          let same : ltb k (i + 1) ≡ ltb k i = ground arith in
          rw (
            same,
            update_ne before i
                (loaded_pixel (pos (get_blue (cells i))) (pos (get_green (cells i)))
                  (pos (get_red (cells i))))
                k e,
          )
    ]

-- A file that passes the tests of the header
module _ (file : List ℕ) (stale : ℕ → ℕ) (allocates : ℕ → Bool) (stale_data : ℕ → ℤ) (w h : ℕ) where
  bitmap-accepted :
      (byte_at file stale 0 == b'B') ≡ true
      → (byte_at file stale 1 == b'M') ≡ true
      → is_zero (int_at file stale 30) ≡ true
      → (short_at file stale 28 == 24) ≡ true
      → int_at file stale 18 ≡ pos w
      → int_at file stale 22 ≡ pos h
      → bitmap (some file) stale allocates stale_data
        ≡ fill (drop 54 file) (bitmap_create allocates stale_data (pos w) (pos h))
  unfolding bitmap
  bitmap-accepted a b c d e f = rw (a, b, c, d, e, f)

  pub bitmap_create-loaded :
      allocates 16 ≡ true
      → w * h < 2 ^ 31
      → allocates (w * h * 4) ≡ true
      → bitmap_create allocates stale_data (pos w) (pos h) ≡ loaded (pos w) (pos h) stale_data
  unfolding bitmap_create
  bitmap_create-loaded a l b =
      let fits : ltb (w * h) (2 ^ 31) ≡ true = lt→ltb (w * h) (2 ^ 31) l in
      let size : w * h * 4 % 2 ^ 64 ≡ w * h * 4 = omega arith in rw (a, fits, size, b)

int_bytes-int :
    (n : ℕ)
    → n < 2 ^ 31
    → int_of (byte_of n 0 + 256 * byte_of n 1 + 65536 * byte_of n 2 + 16777216 * byte_of n 3)
      ≡ pos n
int_bytes-int n h = ap int_of (bytes_lem n (omega arith)) ∙ int_of-pattern_of (pos n) h

pub header_bytes-accepted :
    (w h : ℕ) (lines : List ℕ) (stale : ℕ → ℕ) (allocates : ℕ → Bool) (stale_data : ℕ → ℤ)
    → w < 2 ^ 31
    → h < 2 ^ 31
    → bitmap (some (header_bytes (save_header w h) lines)) stale allocates stale_data
      ≡ fill lines (bitmap_create allocates stale_data (pos w) (pos h))
header_bytes-accepted w h lines stale allocates stale_data a b =
    bitmap-accepted (header_bytes (save_header w h) lines) stale allocates stale_data w h refl refl
      refl refl (int_bytes-int w a) (int_bytes-int h b)

-- What is saved is loaded again, opaque.
pub record Restored (m : Bitmap) (out : Loaded) : Type 0 where
  pub cells : ℕ → ℤ
  pub same_size : out ≡ loaded (pos m.width) (pos m.height) cells
  pub same_colors : (k : ℕ) → k < m.width * m.height → cells k ≡ opaque (m.cells k)

-- For an image with 1 to 2^31 - 1 bytes of colors, whose width is a multiple of four: bitmap_save of an
-- open file returns 1, and bitmap of the file that it writes, where malloc gives the memory, makes an
-- image of the same width and height, whose pixels have the red, green and blue that were saved, with
-- 255 as their fourth field, or are 0 where those are 0.
pub bitmap-bitmap_save :
    (m : Bitmap) (stale : ℕ → ℕ) (allocates : ℕ → Bool) (stale_data : ℕ → ℤ)
    → 0 < m.width
    → 0 < m.height
    → m.width % 4 ≡ 0
    → m.width * m.height * 3 < 2 ^ 31
    → allocates 16 ≡ true
    → allocates (m.width * m.height * 4) ≡ true
    → Returns
        (λ r t.
          (t ≡ m)
          × (r.0 ≡ 1)
          × ((file : List ℕ) × (r.1 ≡ some file)
              × Restored m (bitmap (some file) stale allocates stale_data)))
        (bitmap_save true m)
unfolding bitmap_save
bitmap-bitmap_save m stale allocates stale_data wide high full small node enough =
    let full_lines : pad_length m.width ≡ 0 = ground arith in
    let w_small : m.width < 2 ^ 31 = grind arith in
    let h_small : m.height < 2 ^ 31 = grind arith in
    let none_before : 0 * m.width ≡ 0 = omega arith in
    let turned : m.height * m.width ≡ m.width * m.height = grind arith in
    rw (save_lines-image_bytes m.height 0 m (omega arith) full_lines, none_before, turned)
      (returns (
        refl,
        refl,
        (
          header_bytes (save_header m.width m.height) (image_bytes m.cells 0 (m.width * m.height)),
          refl,
          record {
            cells =
                load_pixels (m.width * m.height) 0 (image_bytes m.cells 0 (m.width * m.height))
                  stale_data;
            same_size =
                header_bytes-accepted m.width m.height (image_bytes m.cells 0 (m.width * m.height))
                  stale allocates stale_data w_small h_small
                ∙ ap (fill (image_bytes m.cells 0 (m.width * m.height))) (
                    bitmap_create-loaded [] stale allocates stale_data m.width m.height node
                      (omega arith) enough);
            same_colors = λ k l.
                let past : ltb k 0 ≡ false = ground arith in
                load_pixels-opaque (m.width * m.height) 0 m.cells stale_data k (omega arith)
                ∙ (rw past refl);
          },
        ),
      ))
