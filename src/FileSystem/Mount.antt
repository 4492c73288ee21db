-- ===== src/FileSystem/Mount.antt =====
-- fs_mount of "06. File Systems/fs.c".
use c_coding_examples_operat.Common.{
  ℕ, zero, suc, ◌+◌, ◌-◌, ◌*◌, ltb, if◌then◌else◌, ltb_ℤ, ℤ, pos, pos_part, get_or, div_nat,
  sub_nat, add_nat, divides, is_zero,
}
use c_coding_examples_operat.FileSystem.Block.{Block, load_int}
use c_coding_examples_operat.FileSystem.Inode.{Inode, load_inode, super_nblocks, super_ninodeblocks}
use c_coding_examples_operat.FileSystem.Machine.{ok, undefined, M, pure, ◌>>=◌, ◌>>◌}
use c_coding_examples_operat.FileSystem.Disk.{disk_read}
use c_coding_examples_operat.FileSystem.Bitmap.{set_bit, calloc}

-- the data blocks behind the indirect block of an inode of this size
abbrev pub indirect_blocks : ℤ → ℤ
indirect_blocks size =
    if divides 4096 size
    then sub_nat (div_nat size 4096) 5
    else add_nat (sub_nat (div_nat size 4096) 5) 1

-- `b.pointers[q]`
abbrev pub pointer_at : Block → ℕ → M ℤ
pointer_at b q s = if ltb q 1024 then ok (load_int b q) s else undefined

-- `for (k = 0; k * BLOCK_SIZE < inode.size && k < 5; k++)`: the rounds that `k < 5` allows, and `k`
unfoldable pub mark_direct : ℕ → ℕ → Inode → M (Unit {0})
mark_direct zero k n = pure tt
mark_direct (suc f) k n =
    if ltb_ℤ (pos (k * 4096)) n.size
    then (do set_bit (get_or n.direct k (pos 0)) 1; mark_direct f (k + 1) n)
    else pure tt

unfoldable pub mark_pointers : Block → ℕ → ℕ → M (Unit {0})
mark_pointers b zero q = pure tt
mark_pointers b (suc f) q = do p ← pointer_at b q; set_bit p 1; mark_pointers b f (q + 1)

unfoldable pub mark_indirect : Inode → M (Unit {0})
mark_indirect n =
    if ltb_ℤ (pos (5 * 4096)) n.size
    then (do
      set_bit n.indirect 1
      b ← disk_read n.indirect
      mark_pointers b (pos_part (indirect_blocks n.size)) 0)
    else pure tt

unfoldable pub mark_inode : ℕ → Inode → M (Unit {0})
mark_inode i n =
    if is_zero n.isvalid then pure tt else do set_bit (pos i) 1; mark_direct 5 0 n; mark_indirect n

-- the loop over the slots of block `i`: the rounds left, and `j`
unfoldable pub mark_slots : ℕ → Block → ℕ → ℕ → M (Unit {0})
mark_slots i b zero j = pure tt
mark_slots i b (suc f) j = do mark_inode i (load_inode b j); mark_slots i b f (j + 1)

-- the loop over the inode blocks: the rounds left, and `i`
unfoldable pub mark_blocks : ℕ → ℕ → M (Unit {0})
mark_blocks zero i = pure tt
mark_blocks (suc f) i = do b ← disk_read (pos i); mark_slots i b 128 0; mark_blocks f (i + 1)

unfoldable pub fs_mount : M ℤ
fs_mount = do
  b ← disk_read (pos 0)
  λ s. ok tt (record s { bitmap = calloc (super_nblocks b); size_bitmap = super_nblocks b })
  mark_blocks (pos_part (super_ninodeblocks b) - 1) 1
  pure (pos 1)
