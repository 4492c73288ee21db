-- ===== src/Bitmap/Rgba.antt =====
-- The colors of "03. Parallel Programming/bitmap.h": four fields of 8 bits in an int.
use Prim.Native.Nat.{bit_or}
use c_coding_examples_operat.Common.{ℕ, ◌+◌, ◌*◌, ◌/◌, ◌%◌, ◌^◌, ◌<◌, ◌≡◌, ℤ, pos, arith, ap}
use c_coding_examples_operat.Common.Bits.{bit_or-field}
use c_coding_examples_operat.Common.Bytes.{pattern_of, int_of}

-- MAKE_RGBA for fields that are not negative
unfoldable pub make_rgba : ℕ → ℕ → ℕ → ℕ → ℕ
make_rgba r g b a = bit_or (bit_or (bit_or (a * 2 ^ 24) (r * 2 ^ 16)) (g * 2 ^ 8)) b

-- MAKE_RGBA for any ints: what is shifted out of the 32 bits is lost.
abbrev pub shifted : ℤ → ℕ → ℕ
shifted z k = pattern_of z * 2 ^ k % 2 ^ 32

unfoldable pub make_rgba_int : ℤ → ℤ → ℤ → ℤ → ℤ
make_rgba_int r g b a =
    int_of (bit_or (bit_or (bit_or (shifted a 24) (shifted r 16)) (shifted g 8)) (pattern_of b))

-- GET_RED, GET_GREEN and GET_BLUE
abbrev pub get_red : ℤ → ℕ
get_red z = pattern_of z / 2 ^ 16 % 2 ^ 8

abbrev pub get_green : ℤ → ℕ
get_green z = pattern_of z / 2 ^ 8 % 2 ^ 8

abbrev pub get_blue : ℤ → ℕ
get_blue z = pattern_of z % 2 ^ 8

pub make_rgba_int-opaque :
    (r g b : ℕ)
    → r < 256
    → g < 256
    → b < 256
    → make_rgba_int (pos r) (pos g) (pos b) (pos 255)
      ≡ int_of (255 * 2 ^ 24 + (r * 2 ^ 16 + (g * 2 ^ 8 + b)))
unfolding make_rgba_int
make_rgba_int-opaque r g b hr hg hb =
    let a' : shifted (pos 255) 24 ≡ 255 * 2 ^ 24 = omega arith in
    let r' : shifted (pos r) 16 ≡ r * 2 ^ 16 = omega arith in
    let g' : shifted (pos g) 8 ≡ g * 2 ^ 8 = omega arith in
    let sum_r : 255 * 2 ^ 24 + r * 2 ^ 16 ≡ (65280 + r) * 2 ^ 16 = omega arith in
    let sum_g : (65280 + r) * 2 ^ 16 + g * 2 ^ 8 ≡ (16711680 + r * 256 + g) * 2 ^ 8 = omega arith in
    rw
      (
        a',
        r',
        g',
        bit_or-field 24 255 (r * 2 ^ 16) (omega arith),
        sum_r,
        bit_or-field 16 (65280 + r) (g * 2 ^ 8) (omega arith),
        sum_g,
        bit_or-field 8 (16711680 + r * 256 + g) b (omega arith),
      )
      (ap int_of (omega arith))
