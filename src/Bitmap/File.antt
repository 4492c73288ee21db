-- ===== src/Bitmap/File.antt =====
-- The files of "03. Parallel Programming/bitmap.c": bitmap_create, bitmap_save and bitmap.
pub mod Length
pub mod RoundTrip
pub mod Padding
use c_coding_examples_operat.Common.{
  ℕ, zero, suc, ◌+◌, ◌-◌, ◌*◌, ◌/◌, ◌%◌, ◌^◌, ◌<◌, ◌==◌, ltb, leb, if◌then◌else◌, Bool, true, false,
  ◌&&◌, ◌||◌, not, ℤ, pos, negsuc, is_zero, pos_part, Option, none, some, List, [], ◌∷◌, ◌++◌,
  get_or, take, drop, update,
}
use c_coding_examples_operat.Common.Bytes.{pattern_of, int_of, byte_of}
use c_coding_examples_operat.Common.Run.{M, pure, ◌>>=◌}
use c_coding_examples_operat.Bitmap.{Bitmap, bitmap_get}
use c_coding_examples_operat.Bitmap.Rgba.{make_rgba_int, get_red, get_green, get_blue}

-- A field of two bytes is its bit pattern.
pub record BmpHeader : Type 0 where
  pub magic1 : ℕ
  pub magic2 : ℕ
  pub size : ℤ
  pub reserved : ℤ
  pub offset : ℤ
  pub infosize : ℤ
  pub width : ℤ
  pub height : ℤ
  pub planes : ℕ
  pub bits : ℕ
  pub compression : ℤ
  pub imagesize : ℤ
  pub xres : ℤ
  pub yres : ℤ
  pub ncolors : ℤ
  pub icolors : ℤ

-- the packed struct in memory, with little-endian fields
abbrev pub int_bytes : ℤ → List ℕ → List ℕ
int_bytes z rest =
    let w = pattern_of z in byte_of w 0 ∷ byte_of w 1 ∷ byte_of w 2 ∷ byte_of w 3 ∷ rest

abbrev pub short_bytes : ℕ → List ℕ → List ℕ
short_bytes n rest = n % 256 ∷ n / 256 % 256 ∷ rest

abbrev pub header_bytes : BmpHeader → List ℕ → List ℕ
header_bytes h rest =
    h.magic1
    ∷ h.magic2
    ∷ int_bytes h.size (
        int_bytes h.reserved (
          int_bytes h.offset (
            int_bytes h.infosize (
              int_bytes h.width (
                int_bytes h.height (
                  short_bytes h.planes (
                    short_bytes h.bits (
                      int_bytes h.compression (
                        int_bytes h.imagesize (
                          int_bytes h.xres (
                            int_bytes h.yres
                              (int_bytes h.ncolors (int_bytes h.icolors rest)))))))))))))

-- The header that bitmap_save makes; sizeof(header) is 54.
abbrev pub save_header : ℕ → ℕ → BmpHeader
save_header w h = record {
  magic1 = b'B';
  magic2 = b'M';
  size = pos (w * h * 3);
  reserved = pos 0;
  offset = pos 54;
  infosize = pos (54 - 14);
  width = pos w;
  height = pos h;
  planes = 1;
  bits = 24;
  compression = pos 0;
  imagesize = pos (w * h * 3);
  xres = pos 1000;
  yres = pos 1000;
  ncolors = pos 0;
  icolors = pos 0;
}

abbrev pub pixel_bytes : ℤ → List ℕ → List ℕ
pixel_bytes rgba rest = get_blue rgba ∷ get_green rgba ∷ get_red rgba ∷ rest

-- The loop over `i`, which fills the scanline: the rounds left, and `i`.
unfoldable pub scan_line : ℕ → ℕ → ℕ → M Bitmap (List ℕ)
scan_line zero i j = pure []
scan_line (suc f) i j = do
  rgba ← bitmap_get (pos i) (pos j)
  rest ← scan_line f (i + 1) j
  pure (pixel_bytes rgba rest)

abbrev pub pad_length : ℕ → ℕ
pad_length w = let padlength = 4 - w * 3 % 4 in if padlength == 4 then 0 else padlength

-- The loop over `j`: the width, the rounds left, and `j`. What fills a line up is its own beginning.
unfoldable pub save_lines : ℕ → ℕ → ℕ → M Bitmap (List ℕ)
save_lines w zero j = pure []
save_lines w (suc f) j = do
  scanline ← scan_line w 0 j
  rest ← save_lines w f (j + 1)
  pure (scanline ++ (take (pad_length w) scanline ++ rest))

-- The result, and the file that is written. `opened` is whether fopen succeeds; malloc is taken to give
-- the memory of the scanline.
unfoldable pub bitmap_save : Bool → M Bitmap (ℕ × Option (List ℕ))
bitmap_save false m = pure (0, none) m
bitmap_save true m =
    (do
      lines ← save_lines m.width m.height 0
      pure (1, some (header_bytes (save_header m.width m.height) lines)))
      m

-- A product of two ints
abbrev pub times : ℤ → ℤ → ℤ
times (pos a) (pos b) = pos (a * b)
times (pos zero) (negsuc b) = pos 0
times (pos (suc a)) (negsuc b) = negsuc (suc a * suc b - 1)
times (negsuc a) (pos zero) = pos 0
times (negsuc a) (pos (suc b)) = negsuc (suc a * suc b - 1)
times (negsuc a) (negsuc b) = pos (suc a * suc b)

abbrev pub is_int : ℤ → Bool
is_int (pos n) = ltb n (2 ^ 31)
is_int (negsuc n) = ltb n (2 ^ 31)

-- `n*sizeof(int)` as a size_t
abbrev pub bytes_for : ℤ → ℕ
bytes_for (pos n) = n * 4 % 2 ^ 64
bytes_for (negsuc n) = (2 ^ 64 - suc n * 4 % 2 ^ 64) % 2 ^ 64

-- The result of bitmap_create and bitmap: 0, undefined behaviour in an overflow of w*h, or a bitmap
-- with its width, height and `data`. A width or height from a file may be negative.
pub data Loaded : Type 0 where
  refused overflow : Loaded
  loaded : ℤ → ℤ → (ℕ → ℤ) → Loaded

-- `allocates n` is whether malloc gives n bytes, which hold `stale` then; struct bitmap has 16.
unfoldable pub bitmap_create : (ℕ → Bool) → (ℕ → ℤ) → ℤ → ℤ → Loaded
bitmap_create allocates stale w h =
    if not (allocates 16)
    then refused
    else if not (is_int (times w h))
    then overflow
    else if allocates (bytes_for (times w h))
    then loaded w h stale
    else refused

-- The bytes of the header where the file is too short for it are those of `stale`.
abbrev pub byte_at : List ℕ → (ℕ → ℕ) → ℕ → ℕ
byte_at file stale k = get_or file k (stale k)

abbrev pub int_at : List ℕ → (ℕ → ℕ) → ℕ → ℤ
int_at file stale k = int_of (
    byte_at file stale k
    + 256 * byte_at file stale (k + 1)
    + 65536 * byte_at file stale (k + 2)
    + 16777216 * byte_at file stale (k + 3))

abbrev pub short_at : List ℕ → (ℕ → ℕ) → ℕ → ℕ
short_at file stale k = byte_at file stale k + 256 * byte_at file stale (k + 1)

-- fgetc: the next byte, or EOF, and what is left
abbrev pub fgetc : List ℕ → ℤ × List ℕ
fgetc [] = (negsuc 0, [])
fgetc (c ∷ cs) = (pos c, cs)

abbrev pub loaded_pixel : ℤ → ℤ → ℤ → ℤ
loaded_pixel b g r =
    if is_zero b && is_zero g && is_zero r then pos 0 else make_rgba_int r g b (pos 255)

-- The loop of bitmap over `i`: the rounds left, `i`, what is left of the file, and `data`.
unfoldable pub load_pixels : ℕ → ℕ → List ℕ → (ℕ → ℤ) → ℕ → ℤ
load_pixels zero i rest cells = cells
load_pixels (suc f) i rest cells =
    let b = fgetc rest in
    let g = fgetc b.1 in
    let r = fgetc g.1 in load_pixels f (i + 1) r.1 (update cells i (loaded_pixel b.0 g.0 r.0))

abbrev pub fill : List ℕ → Loaded → Loaded
fill rest refused = refused
fill rest overflow = overflow
fill rest (loaded w h cells) = loaded w h (load_pixels (pos_part (times w h)) 0 rest cells)

-- `file` is the content behind fopen, or none.
unfoldable pub bitmap : Option (List ℕ) → (ℕ → ℕ) → (ℕ → Bool) → (ℕ → ℤ) → Loaded
bitmap none stale allocates stale_data = refused
bitmap (some file) stale allocates stale_data =
    if not (byte_at file stale 0 == b'B') || not (byte_at file stale 1 == b'M')
    then refused
    else if not (is_zero (int_at file stale 30)) || not (short_at file stale 28 == 24)
    then refused
    else fill (drop 54 file)
        (bitmap_create allocates stale_data (int_at file stale 18) (int_at file stale 22))
