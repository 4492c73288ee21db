-- ===== src/FileSystem/Debug.antt =====
-- fs_debug of "06. File Systems/fs.c".
pub mod Formatted
pub mod ReadOnly
use c_coding_examples_operat.Common.{
  ℕ, zero, suc, ◌+◌, ◌-◌, ◌*◌, ◌==◌, if◌then◌else◌, Bool, false, ltb_ℤ, ℤ, pos, negsuc, pos_part,
  get_or, is_zero, List, [], ◌∷◌, ◌++◌,
}
use c_coding_examples_operat.FileSystem.Block.{Block}
use c_coding_examples_operat.FileSystem.Inode.{
  Inode, load_inode, super_magic, super_nblocks, super_ninodeblocks, super_ninodes,
}
use c_coding_examples_operat.FileSystem.Machine.{M, pure, ◌>>=◌}
use c_coding_examples_operat.FileSystem.Disk.{disk_read}
use c_coding_examples_operat.FileSystem.Mount.{indirect_blocks, pointer_at}

-- What is printed, a line each.
pub data Line : Type 0 where
  superblock valid_magic invalid_magic : Line
  blocks_on_disk blocks_for_inodes inodes_total : ℤ → Line
  inode_number : ℕ → Line
  inode_size : ℤ → Line
  direct_blocks : List ℤ → Line
  indirect_block : ℤ → Line
  indirect_data_blocks : List ℤ → Line

-- `block.super.magic == FS_MAGIC`
abbrev pub is_magic : ℤ → Bool
is_magic (pos n) = false
is_magic (negsuc n) = n == 0xffff_ffff - 0xf0f0_3410

-- The loop over `k`: the rounds that `k < 5` allows, and `k`.
unfoldable pub list_direct : ℕ → ℕ → Inode → List ℤ
list_direct zero k n = []
list_direct (suc f) k n =
    let rest = list_direct f (k + 1) n in
    if ltb_ℤ (pos (k * 4096)) n.size then get_or n.direct k (pos 0) ∷ rest else []

-- The loop over `l`: the rounds left, and `l`.
unfoldable pub list_pointers : Block → ℕ → ℕ → M (List ℤ)
list_pointers b zero l = pure []
list_pointers b (suc f) l = do p ← pointer_at b l; rest ← list_pointers b f (l + 1); pure (p ∷ rest)

unfoldable pub debug_indirect : Inode → M (List Line)
debug_indirect n =
    if ltb_ℤ (pos (5 * 4096)) n.size
    then (do
      b ← disk_read n.indirect
      ps ← list_pointers b (pos_part (indirect_blocks n.size)) 0
      pure (indirect_block n.indirect ∷ indirect_data_blocks ps ∷ []))
    else pure []

unfoldable pub debug_inode : ℕ → Inode → M (List Line)
debug_inode j n = if is_zero n.isvalid then pure [] else do
  more ← debug_indirect n
  pure (inode_number j ∷ inode_size n.size ∷ direct_blocks (list_direct 5 0 n) ∷ more)

-- The loop over the slots of a block: the rounds left, and `j`.
unfoldable pub debug_slots : Block → ℕ → ℕ → M (List Line)
debug_slots b zero j = pure []
debug_slots b (suc f) j = do
  first ← debug_inode j (load_inode b j)
  rest ← debug_slots b f (j + 1)
  pure (first ++ rest)

-- The loop over the inode blocks: the rounds left, and `i`.
unfoldable pub debug_blocks : ℕ → ℕ → M (List Line)
debug_blocks zero i = pure []
debug_blocks (suc f) i = do
  b ← disk_read (pos i)
  first ← debug_slots b 128 0
  rest ← debug_blocks f (i + 1)
  pure (first ++ rest)

abbrev pub super_lines : Block → List Line
super_lines b =
    superblock
    ∷ valid_magic
    ∷ blocks_on_disk (super_nblocks b)
    ∷ blocks_for_inodes (super_ninodeblocks b)
    ∷ inodes_total (super_ninodes b)
    ∷ []

-- The lines; those that come before an access that ends the program are not kept.
unfoldable pub fs_debug : M (List Line)
fs_debug = do
  b ← disk_read (pos 0)
  if is_magic (super_magic b)
      then (do
        rest ← debug_blocks (pos_part (super_ninodeblocks b) - 1) 1
        pure (super_lines b ++ rest))
      else pure (superblock ∷ invalid_magic ∷ [])
