-- ===== src/FileSystem/Table/Address.antt =====
-- Inode numbers and the slots that they stand for.
use c_coding_examples_operat.Common.{
  ℕ, ◌-◌, ◌≤◌, ◌<◌, ◌≡◌, ◌≢◌, ◌==◌, if◌then◌else◌, pos, some, arith,
}
use mathlib.Core.Logic.{◌↔◌}
use c_coding_examples_operat.FileSystem.Table.{get_inode_number, getblock_num, slot_of}

-- The slot that fs_delete, fs_getsize, fs_read and fs_write take for the number that fs_create
-- gives to slot `j` of block `i`: the slot is right, and the block is one too low for slot 0.
pub getblock_num-get_inode_number :
    (i j : ℕ)
    → 1 ≤ i
    → j < 128
    → (getblock_num (pos (get_inode_number i j)) ≡ pos (if j == 0 then i - 1 else i))
      × (slot_of (pos (get_inode_number i j)) ≡ some j)
unfolding getblock_num get_inode_number
getblock_num-get_inode_number i j h k = ground arith

-- For a slot below 128 of a block from 1 on: the number that getInodeNumber gives it leads back to
-- the block of the slot exactly when the slot is not slot 0.
pub address_iff :
    (i j : ℕ) → 1 ≤ i → j < 128 → (getblock_num (pos (get_inode_number i j)) ≡ pos i) ↔ (j ≢ 0)
address_iff i j h k = (
  (λ e. ground (arith, getblock_num-get_inode_number i j)),
  (λ e. ground (arith, getblock_num-get_inode_number i j)),
)
