-- ===== src/FileSystem/Disk.antt =====
-- "06. File Systems/disk.c". `fread` and `fwrite` of a block inside the file that `ftruncate` has
-- sized transfer the whole block.
use c_coding_examples_operat.Common.{
  ℕ, ◌+◌, ◌*◌, ◌^◌, ◌≤◌, ◌<◌, ◌≡◌, refl, ltb, Bool, true, false, if◌then◌else◌, ltb_ℤ, leb_ℤ, ℤ,
  pos, pos_part, arith, update, ◌⊎◌, ◌==◌,
}
use c_coding_examples_operat.FileSystem.Block.{Block}
use c_coding_examples_operat.FileSystem.Machine.{State, ok, aborted, undefined, M, and_then, ◌>>◌}

-- The disk with `n` blocks: n*DISK_BLOCK_SIZE is an int.
abbrev pub sized_disk : (image : ℕ → Block) (n : ℕ) (small : Bool) → ltb n (2 ^ 19) ≡ small → M ℤ
sized_disk image n false e s = undefined
sized_disk image n true e s =
    ok (pos 1) (record s { nblocks = n; sized = e; blocks = image; nreads = 0; nwrites = 0 })

-- `opened` is whether one of the two `fopen` succeeds, `image` the content of the file behind it
-- after `ftruncate`.
unfoldable pub disk_init : (opened : Bool) (image : ℕ → Block) (n : ℕ) → M ℤ
disk_init opened image n s =
    if opened then sized_disk image n (ltb n (2 ^ 19)) refl s else ok (pos 0) s

unfoldable pub disk_size : M ℕ
disk_size s = ok s.nblocks s

-- The data pointer is the address of a variable in every call, and not null.
unfoldable pub sanity_check : ℤ → M (Unit {0})
sanity_check blocknum s =
    if ltb_ℤ blocknum (pos 0)
    then aborted
    else if leb_ℤ (pos s.nblocks) blocknum
    then aborted
    else ok tt s

abbrev pub counted_read : State → State
counted_read s = record s { nreads = s.nreads + 1 }

abbrev pub written : State → ℕ → Block → State
written s i b = record s { blocks = update s.blocks i b; nwrites = s.nwrites + 1 }

-- blocknum*DISK_BLOCK_SIZE is in the range of an int.
abbrev pub is_offset : ℤ → Bool
is_offset blocknum = ltb (pos_part blocknum * 4096) (2 ^ 31)

unfoldable pub disk_read : ℤ → M Block
unfolding sanity_check
disk_read blocknum = do
  sanity_check blocknum
  λ s. if is_offset blocknum then ok (s.blocks (pos_part blocknum)) (counted_read s) else undefined

unfoldable pub disk_write : ℤ → Block → M (Unit {0})
unfolding sanity_check
disk_write blocknum b = do
  sanity_check blocknum
  λ s. if is_offset blocknum then ok tt (written s (pos_part blocknum) b) else undefined

pub disk_read-ok :
    (i : ℕ) (s : State) → i < s.nblocks → disk_read (pos i) s ≡ ok (s.blocks i) (counted_read s)
unfolding disk_read sanity_check
disk_read-ok i s h =
    let offset : ltb (i * 4096) (2 ^ 31) ≡ true = ground (arith, s.sized) in ground arith

pub disk_read_outside : (i : ℕ) (s : State) → s.nblocks ≤ i → disk_read (pos i) s ≡ aborted
unfolding disk_read sanity_check
disk_read_outside i s h = ground arith

pub disk_write-ok :
    (i : ℕ) (b : Block) (s : State) → i < s.nblocks → disk_write (pos i) b s ≡ ok tt (written s i b)
unfolding disk_write sanity_check
disk_write-ok i b s h =
    let offset : ltb (i * 4096) (2 ^ 31) ≡ true = ground (arith, s.sized) in ground arith

-- A block number that is negative or not below the size of the disk ends the program, for a read
-- and for a write.
pub out_of_disk :
    (z : ℤ) (b : Block) (s : State)
    → (ltb_ℤ z (pos 0) ≡ true) ⊎ (leb_ℤ (pos s.nblocks) z ≡ true)
    → (disk_read z s ≡ aborted) × (disk_write z b s ≡ aborted)
unfolding disk_read disk_write sanity_check
out_of_disk z b s h = ground arith

-- For block numbers `i` and `j` on the disk: after a write of block `i`, a read of it gives what
-- was written, and a read of another block `j` gives what was there before.
pub read-write :
    (i j : ℕ) (b : Block) (s : State)
    → i < s.nblocks
    → j < s.nblocks
    → and_then (disk_write (pos i) b s) (λ _. disk_read (pos j))
      ≡ ok (if j == i then b else s.blocks j) (counted_read (written s i b))
unfolding disk_read disk_write sanity_check
read-write i j b s h k =
    let offset : ltb (i * 4096) (2 ^ 31) ≡ true = ground (arith, s.sized) in
    let other_offset : ltb (j * 4096) (2 ^ 31) ≡ true = ground (arith, s.sized) in ground arith
