-- ===== src/FileSystem/Format.antt =====
-- fs_format of "06. File Systems/fs.c".
pub mod Layout
use c_coding_examples_operat.Common.{
  ℕ, zero, suc, ◌+◌, ◌-◌, ◌*◌, ◌/◌, ◌%◌, ◌==◌, if◌then◌else◌, ℤ, pos, negsuc, Option, none, some,
  List, [], ◌∷◌,
}
use c_coding_examples_operat.FileSystem.Block.{Block}
use c_coding_examples_operat.FileSystem.Inode.{store_ints}
use c_coding_examples_operat.FileSystem.Machine.{State, is_mounted, ok, M, pure, ◌>>=◌, ◌>>◌}
use c_coding_examples_operat.FileSystem.Disk.{disk_size, disk_write}

-- FS_MAGIC is 0xf0f03410, which an `int` holds as that number less 2^32.
abbrev pub fs_magic : ℤ
fs_magic = negsuc (0xffff_ffff - 0xf0f0_3410)

abbrev pub inodes_per_block : ℕ
inodes_per_block = 128

abbrev pub block_size : ℕ
block_size = 4096

unfoldable pub inode_blocks : ℕ → ℕ
inode_blocks n = if n % 10 == 0 then n / 10 else n / 10 + 1

-- `memset(reset.data, 0, BLOCK_SIZE)`
abbrev pub zero_block : Block
zero_block _ = 0

-- `for (i = 1; i < ninodeblocks; i++) disk_write(i, reset.data)`: the rounds left, and `i`.
unfoldable pub clear_blocks : ℕ → ℕ → M (Unit {0})
clear_blocks zero i = pure tt
clear_blocks (suc k) i = do disk_write (pos i) zero_block; clear_blocks k (i + 1)

-- The superblock is written over whatever the stack holds in the local variable, `junk`.
abbrev pub super_block : Block → ℕ → Block
super_block junk n =
    store_ints junk 0
      (fs_magic ∷ pos n ∷ pos (inode_blocks n) ∷ pos (inodes_per_block * inode_blocks n) ∷ [])

unfoldable pub format_disk : Block → M ℤ
format_disk junk = do
  n ← disk_size
  disk_write (pos 0) (super_block junk n)
  clear_blocks (inode_blocks n - 1) 1
  pure (pos 1)

unfoldable pub fs_format : Block → M ℤ
fs_format junk s = if is_mounted s.bitmap then ok (pos 0) s else format_disk junk s
