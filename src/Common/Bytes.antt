-- ===== src/Common/Bytes.antt =====
-- 32-bit integers as bit patterns, and their bytes.
use Prim.Native.Nat.{ℕ, zero, suc, ◌+◌, ◌-◌, ◌*◌, ◌/◌, ◌%◌, ◌^◌, ◌<◌}
use mathlib.Core.Path.{◌≡◌}
use native.Mathlib.Omega.{arith}
use c_coding_examples_operat.Common.Tests.{ltb, if◌then◌else◌}
use c_coding_examples_operat.Common.Int.{ℤ, pos, negsuc, IsInt}

-- The bit pattern of an `int`, and the `int` of a bit pattern.
abbrev pub pattern_of : ℤ → ℕ
pattern_of (pos n) = n
pattern_of (negsuc n) = 2 ^ 32 - 1 - n

abbrev pub int_of : ℕ → ℤ
int_of w = if ltb w (2 ^ 31) then pos w else negsuc (2 ^ 32 - 1 - w)

-- byte `k` of a 32-bit pattern
abbrev pub byte_of : ℕ → ℕ → ℕ
byte_of w zero = w % 256
byte_of w (suc k) = byte_of (w / 256) k

pub bytes_lem :
    (w : ℕ)
    → w < 2 ^ 32
    → byte_of w 0 + 256 * byte_of w 1 + 65536 * byte_of w 2 + 16777216 * byte_of w 3 ≡ w
bytes_lem w h = omega arith

pub int_of-pattern_of : (z : ℤ) → IsInt z → int_of (pattern_of z) ≡ z
int_of-pattern_of (pos n) h = ground arith
int_of-pattern_of (negsuc n) h = ground arith

pub pattern_of-lt : (z : ℤ) → IsInt z → pattern_of z < 2 ^ 32
pattern_of-lt (pos n) h = omega arith
pattern_of-lt (negsuc n) h = omega arith
