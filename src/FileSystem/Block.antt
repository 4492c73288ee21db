-- ===== src/FileSystem/Block.antt =====
-- union fs_block of "06. File Systems/fs.c": 4096 bytes, read as characters or as 32-bit integers
-- in little-endian order.
use c_coding_examples_operat.Common.{
  ℕ, ◌+◌, ◌*◌, ◌/◌, ◌%◌, ◌≡◌, ap, ◌∙◌, true, false, ◌≢◌, ◌==◌, if◌then◌else◌, ℤ, IsInt, arith,
}
use c_coding_examples_operat.Common.Bytes.{
  pattern_of, int_of, byte_of, bytes_lem, int_of-pattern_of, pattern_of-lt,
}

-- `data`: the byte at each index below 4096.
abbrev pub Block : Type 0
Block = ℕ → ℕ

-- `((int *)b)[i]`
unfoldable pub load_int : Block → ℕ → ℤ
load_int b i =
    int_of (b (4 * i) + 256 * b (4 * i + 1) + 65536 * b (4 * i + 2) + 16777216 * b (4 * i + 3))

-- `((int *)b)[i] = z`
unfoldable pub store_int : Block → ℕ → ℤ → Block
store_int b i z k = if k / 4 == i then byte_of (pattern_of z) (k % 4) else b k

stored_byte :
    (b : Block) (i : ℕ) (z : ℤ) (k r : ℕ)
    → k / 4 ≡ i
    → k % 4 ≡ r
    → store_int b i z k ≡ byte_of (pattern_of z) r
unfolding store_int
stored_byte b i z k r p q = let e : (k / 4 == i) ≡ true = ground arith in rw e (rw q)

other_byte : (b : Block) (i : ℕ) (z : ℤ) (k : ℕ) → k / 4 ≢ i → store_int b i z k ≡ b k
unfolding store_int
other_byte b i z k p = let e : (k / 4 == i) ≡ false = ground arith in rw e

pub load-store_self : (b : Block) (i : ℕ) (z : ℤ) → IsInt z → load_int (store_int b i z) i ≡ z
unfolding load_int
load-store_self b i z h =
    rw
      (
        stored_byte b i z (4 * i) 0 (omega arith) (omega arith),
        stored_byte b i z (4 * i + 1) 1 (omega arith) (omega arith),
        stored_byte b i z (4 * i + 2) 2 (omega arith) (omega arith),
        stored_byte b i z (4 * i + 3) 3 (omega arith) (omega arith),
      )
      (ap int_of (bytes_lem (pattern_of z) (pattern_of-lt z h)) ∙ int_of-pattern_of z h)

pub load-store_ne :
    (b : Block) (i j : ℕ) (z : ℤ) → j ≢ i → load_int (store_int b i z) j ≡ load_int b j
unfolding load_int
load-store_ne b i j z h = rw (
  other_byte b i z (4 * j) (omega arith),
  other_byte b i z (4 * j + 1) (omega arith),
  other_byte b i z (4 * j + 2) (omega arith),
  other_byte b i z (4 * j + 3) (omega arith),
)
