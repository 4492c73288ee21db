-- ===== src/FileSystem/Format/Layout.antt =====
-- What fs_format leaves on the disk.
use c_coding_examples_operat.Common.{
  ℕ, zero, suc, ◌+◌, ◌-◌, ◌*◌, ◌^◌, ◌≤◌, ◌<◌, ◌≡◌, refl, ◌⊎◌, inl, inr, ◌∙◌, ℤ, pos, none, some,
  List, [], ◌∷◌, arith, true, false, ℕ-cases, get_or, ap,
}
use c_coding_examples_operat.FileSystem.Block.{Block, load_int}
use c_coding_examples_operat.FileSystem.Inode.{
  load-store_ints, super_magic, super_nblocks, super_ninodeblocks, super_ninodes,
}
use c_coding_examples_operat.FileSystem.Machine.{
  State, is_mounted, Bits, ok, Returns, returns, Returns-bind, Returns-mono,
}
use c_coding_examples_operat.FileSystem.Disk.{disk_size, disk_write-ok, written}
use c_coding_examples_operat.FileSystem.Format.{
  fs_magic, zero_block, super_block, inode_blocks, clear_blocks, format_disk, fs_format,
}

-- The number of inode blocks is the least one that is a tenth of the blocks or more.
pub inode_blocks_bounds : (n : ℕ) → (n ≤ 10 * inode_blocks n) × (10 * inode_blocks n < n + 10)
unfolding inode_blocks
inode_blocks_bounds n = ground arith

-- what `fs_mount` finds in the superblock of a disk of `n` blocks
pub record IsSuper (n : ℕ) (b : Block) : Type 0 where
  pub magic : super_magic b ≡ fs_magic
  pub nblocks : super_nblocks b ≡ pos n
  pub ninodeblocks : super_ninodeblocks b ≡ pos (inode_blocks n)
  pub ninodes : super_ninodes b ≡ pos (128 * inode_blocks n)

super_block-IsSuper : (junk : Block) (n : ℕ) → n < 2 ^ 24 → IsSuper n (super_block junk n)
super_block-IsSuper junk n h = record {
  magic = field 0 (omega arith);
  nblocks = field 1 (omega arith);
  ninodeblocks = field 2 (omega arith);
  ninodes = field 3 (omega arith);
}
  where
    four : List ℤ
    four = fs_magic ∷ pos n ∷ pos (inode_blocks n) ∷ pos (128 * inode_blocks n) ∷ []

    field : (k : ℕ) → k < 4 → load_int (super_block junk n) k ≡ get_or four k (pos 0)
    field k l =
        load-store_ints junk 0 k k four (omega (arith, inode_blocks_bounds n)) l (omega arith)

-- After the loop, the blocks that it went over are zero, and the others as before.
record Cleared (s : State) (i k : ℕ) (t : State) : Type 0 where
  zeroed : (j : ℕ) → i ≤ j → j < i + k → t.blocks j ≡ zero_block
  kept : (j : ℕ) → (j < i) ⊎ (i + k ≤ j) → t.blocks j ≡ s.blocks j
  same_size : t.nblocks ≡ s.nblocks
  same_bitmap : t.bitmap ≡ s.bitmap

clear_blocks-Cleared :
    (k i : ℕ) (s : State) → i + k ≤ s.nblocks → Returns (λ _. Cleared s i k) (clear_blocks k i s)
unfolding clear_blocks
clear_blocks-Cleared zero i s h = returns (record {
  zeroed = λ j a b. absurd (omega arith);
  kept = λ j _. refl;
  same_size = refl;
  same_bitmap = refl;
})
clear_blocks-Cleared (suc k) i s h = rw (disk_write-ok i zero_block s (omega arith)) (
    Returns-mono (clear_blocks-Cleared k (i + 1) (written s i zero_block) (omega arith)) λ _ t c.
      record {
        zeroed = λ j a b. elim (ℕ-cases j i) [
          | inl e ↦ c.kept j (omega arith) ∙ ground arith
          | inr e ↦ c.zeroed j (omega arith) (omega arith)
        ];
        kept = λ j o. c.kept j (omega arith) ∙ ground arith;
        same_size = c.same_size;
        same_bitmap = c.same_bitmap;
      })

-- The disk after fs_format, with its result.
pub record Formatted (s : State) (r : ℤ) (t : State) : Type 0 where
  pub success : r ≡ pos 1
  pub super : IsSuper s.nblocks (t.blocks 0)
  pub cleared : (j : ℕ) → 1 ≤ j → j < inode_blocks s.nblocks → t.blocks j ≡ zero_block
  pub kept : (j : ℕ) → 1 ≤ j → inode_blocks s.nblocks ≤ j → t.blocks j ≡ s.blocks j
  pub same_size : t.nblocks ≡ s.nblocks
  pub unmounted : t.bitmap ≡ none

format_disk-Formatted :
    (junk : Block) (s : State)
    → s.bitmap ≡ none
    → 0 < s.nblocks
    → Returns (Formatted s) (format_disk junk s)
unfolding format_disk disk_size
format_disk-Formatted junk s un h =
    let few : s.nblocks < 2 ^ 24 = ground (arith, s.sized) in
    rw (disk_write-ok 0 (super_block junk s.nblocks) s h) (
      Returns-bind
        (clear_blocks-Cleared (inode_blocks s.nblocks - 1) 1
          (written s 0 (super_block junk s.nblocks)) (omega (arith, inode_blocks_bounds s.nblocks)))
        λ _ t c. returns (record {
          success = refl;
          super = rw (c.kept 0 (omega arith)) (super_block-IsSuper junk s.nblocks few);
          cleared = λ j a b. c.zeroed j a (omega arith);
          kept = λ j a b. c.kept j (omega (arith, inode_blocks_bounds s.nblocks)) ∙ ground arith;
          same_size = c.same_size;
          unmounted = c.same_bitmap ∙ un;
        }))

-- On an unmounted disk of a block or more, and less than 2^19, as disk_init makes it, fs_format returns 1 and stays unmounted. Block 0
-- then holds the magic number and the counts: the blocks, a tenth of them rounded up for inodes,
-- and 128 inodes for each of those. The blocks from 1 up to, and without, the count of inode
-- blocks are zero, and every later block keeps its content, the last inode block among them.
pub fs_format-Formatted :
    (junk : Block) (s : State)
    → s.bitmap ≡ none
    → 0 < s.nblocks
    → Returns (Formatted s) (fs_format junk s)
unfolding fs_format
fs_format-Formatted junk s un h =
    let no_map : is_mounted s.bitmap ≡ false = ap is_mounted un in
    rw no_map (format_disk-Formatted junk s un h)

-- On a mounted disk fs_format returns 0 and changes nothing.
pub fs_format_mounted :
    (junk : Block) (s : State) (b : Bits) → s.bitmap ≡ some b → fs_format junk s ≡ ok (pos 0) s
unfolding fs_format
fs_format_mounted junk s b e = let map : is_mounted s.bitmap ≡ true = ap is_mounted e in rw map
