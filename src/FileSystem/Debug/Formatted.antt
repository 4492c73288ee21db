-- ===== src/FileSystem/Debug/Formatted.antt =====
-- fs_debug after fs_format.
use c_coding_examples_operat.Common.{
  ℕ, zero, suc, ◌+◌, ◌-◌, ◌*◌, ◌≤◌, ◌<◌, ◌≡◌, refl, ap, pos, none, [], ◌∷◌, arith, is_zero, true,
}
use c_coding_examples_operat.FileSystem.Block.{Block, load_int}
use c_coding_examples_operat.FileSystem.Inode.{load_inode, super_magic}
use c_coding_examples_operat.FileSystem.Machine.{
  State, ok, Returns, returns, Returns-mono, Returns-bind,
}
use c_coding_examples_operat.FileSystem.Disk.{disk_read-ok, counted_read}
use c_coding_examples_operat.FileSystem.Format.{zero_block, inode_blocks, fs_format}
use c_coding_examples_operat.FileSystem.Format.Layout.{fs_format-Formatted, inode_blocks_bounds}
use c_coding_examples_operat.FileSystem.Debug.{
  superblock, valid_magic, blocks_on_disk, blocks_for_inodes, inodes_total, is_magic, debug_inode,
  debug_slots, debug_blocks, fs_debug,
}

zero_block-free : (j : ℕ) → is_zero (load_inode zero_block j).isvalid ≡ true
unfolding load_inode load_int
zero_block-free j = refl

-- A block of zeros has no inode to print.
debug_slots-zero : (f j : ℕ) (t : State) → debug_slots zero_block f j t ≡ ok [] t
unfolding debug_slots debug_inode
debug_slots-zero zero j t = refl
debug_slots-zero (suc f) j t = rw (zero_block-free j, debug_slots-zero f (j + 1) t)

debug_blocks-zero :
    (f i : ℕ) (t : State)
    → i + f ≤ t.nblocks
    → ((j : ℕ) → i ≤ j → j < i + f → t.blocks j ≡ zero_block)
    → Returns (λ r _. r ≡ []) (debug_blocks f i t)
unfolding debug_blocks
debug_blocks-zero zero i t h z = returns refl
debug_blocks-zero (suc f) i t h z =
    rw
      (
        disk_read-ok i t (omega arith),
        z i (omega arith) (omega arith),
        debug_slots-zero 128 0 (counted_read t),
      )
      (Returns-bind
        (debug_blocks-zero f (i + 1) (counted_read t) (omega arith)
          (λ j a b. z j (omega arith) (omega arith)))
        λ r u e. rw e (returns refl))

-- On an unmounted disk of a block or more, and less than 2^19, as disk_init makes it: after fs_format, fs_debug prints the valid magic
-- number and the counts of the superblock, and no inode, whatever was on the disk.
pub fs_debug-fs_format :
    (junk : Block) (s : State)
    → s.bitmap ≡ none
    → 0 < s.nblocks
    → Returns
        (λ _ t.
          Returns
            (λ lines _.
              lines
              ≡ superblock
                ∷ valid_magic
                ∷ blocks_on_disk (pos s.nblocks)
                ∷ blocks_for_inodes (pos (inode_blocks s.nblocks))
                ∷ inodes_total (pos (128 * inode_blocks s.nblocks))
                ∷ [])
            (fs_debug t))
        (fs_format junk s)
unfolding fs_debug
fs_debug-fs_format junk s un h = Returns-mono (fs_format-Formatted junk s un h) λ _ t f.
    let magic : is_magic (super_magic (t.blocks 0)) ≡ true = ap is_magic f.super.magic in
    rw (disk_read-ok 0 t (omega (arith, f.same_size)), magic, f.super.ninodeblocks)
      (Returns-bind
        (debug_blocks-zero (inode_blocks s.nblocks - 1) 1 (counted_read t)
          (omega (arith, f.same_size, inode_blocks_bounds s.nblocks))
          (λ j a b. f.cleared j a (omega arith)))
        λ r u e. rw (e, f.super.nblocks, f.super.ninodes) (returns refl))
