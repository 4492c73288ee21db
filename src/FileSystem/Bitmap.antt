-- ===== src/FileSystem/Bitmap.antt =====
-- The accesses of fs.c to `bitmap`, and getNextBlock ("06. File Systems/fs.c").
pub mod Access
pub mod NextBlock
use c_coding_examples_operat.Common.{
  ℕ, zero, suc, ◌+◌, ◌-◌, ◌≤◌, ◌<◌, ◌≡◌, refl, ◌≢◌, ◌==◌, ltb, if◌then◌else◌, ltb_ℤ, ℤ, pos, negsuc,
  pos_part, Option, none, some, update, arith, Bool, add_nat,
}
use c_coding_examples_operat.FileSystem.Inode.{super_ninodeblocks}
use c_coding_examples_operat.FileSystem.Machine.{State, Bits, ok, undefined, M, pure, ◌>>=◌, ◌>>◌}
use c_coding_examples_operat.FileSystem.Disk.{disk_read}

-- `bitmap[z] = v`, `none` for a null `bitmap` and for an index out of the array
abbrev pub store_bit : Option Bits → ℤ → ℕ → Option Bits
store_bit none z v = none
store_bit (some m) (negsuc n) v = none
store_bit (some m) (pos i) v =
    if ltb i m.size then some (record m { bit = update m.bit i v }) else none

abbrev pub put_bitmap : Option Bits → M (Unit {0})
put_bitmap none s = undefined
put_bitmap (some m) s = ok tt (record s { bitmap = some m })

unfoldable pub set_bit : ℤ → ℕ → M (Unit {0})
set_bit z v s = put_bitmap (store_bit s.bitmap z v) s

-- `bitmap[i]`
abbrev pub load_bit : Option Bits → ℕ → Option ℕ
load_bit none i = none
load_bit (some m) i = if ltb i m.size then some (m.bit i) else none

abbrev pub get_bit : ℕ → M ℕ
get_bit i s = elim (load_bit s.bitmap i) [ none ↦ undefined | some v ↦ ok v s ]

-- `calloc(n, sizeof(int))`: a negative count is a size beyond all memory, and gives NULL.
abbrev pub calloc : ℤ → Option Bits
calloc (pos n) = some (record { size = n; bit = λ _. 0 })
calloc (negsuc n) = none

-- The loop of getNextBlock: the rounds left, and `i`. The cell is set to 0, as it was.
unfoldable pub scan_free : ℕ → ℕ → M ℤ
scan_free zero i = pure (negsuc 0)
scan_free (suc k) i = do
  v ← get_bit i
  if v == 0 then (do set_bit (pos i) 0; pure (pos i)) else scan_free k (i + 1)

-- The loop from a first index, which a superblock with a negative count would make negative.
abbrev pub scan_from : ℤ → ℤ → M ℤ
scan_from (pos start) size = scan_free (pos_part size - start) start
scan_from (negsuc n) size = if ltb_ℤ (negsuc n) size then (λ _. undefined) else pure (negsuc 0)

unfoldable pub get_next_block : M ℤ
get_next_block = do
  b ← disk_read (pos 0)
  λ s. scan_from (add_nat (super_ninodeblocks b) 1) s.size_bitmap s
