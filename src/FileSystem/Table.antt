-- ===== src/FileSystem/Table.antt =====
-- The inode table: fs_create, fs_delete and fs_getsize of "06. File Systems/fs.c".
pub mod Address
pub mod FreeSlot
pub mod Create
pub mod Delete
use c_coding_examples_operat.Common.{
  ℕ, zero, suc, ◌+◌, ◌-◌, ◌*◌, ◌%◌, ◌==◌, ltb, if◌then◌else◌, ltb_ℤ, leb_ℤ, ℤ, pos, negsuc,
  pos_part, get_or, div_nat, sub_nat, add_nat, is_zero, Bool, true, false, ◌&&◌, Option, none, some,
  replicate,
}
use c_coding_examples_operat.FileSystem.Block.{Block, load_int}
use c_coding_examples_operat.FileSystem.Inode.{
  Inode, load_inode, store_inode, super_nblocks, super_ninodeblocks,
}
use c_coding_examples_operat.FileSystem.Machine.{
  State, ok, undefined, out_of_fuel, M, pure, ◌>>=◌, ◌>>◌, is_mounted,
}
use c_coding_examples_operat.FileSystem.Disk.{disk_read, disk_write}
use c_coding_examples_operat.FileSystem.Bitmap.{set_bit}

-- getInodeNumber, for a block index that is at least 1
unfoldable pub get_inode_number : ℕ → ℕ → ℕ
get_inode_number blockindex inodeindex = (blockindex - 1) * 128 + inodeindex

unfoldable pub getblock_num : ℤ → ℤ
getblock_num inumber = div_nat (add_nat inumber 127) 128

-- `inumber % 128` as an index of `block.inode`: C gives a negative remainder for a negative number.
abbrev pub slot_of : ℤ → Option ℕ
slot_of (pos n) = some (n % 128)
slot_of (negsuc n) = if suc n % 128 == 0 then some 0 else none

abbrev pub in_table : {A : Type 0} → Option ℕ → (ℕ → M A) → M A
in_table none k = λ _. undefined
in_table (some j) k = k j

-- The inode that fs_create makes, and what fs_delete leaves.
abbrev pub cleared : ℤ → Inode
cleared valid = record {
  isvalid = valid;
  size = pos 0;
  direct = replicate 5 (pos 0);
  indirect = pos 0;
}

-- The loop of fs_create over `j`, with slot 0 of block 1 passed over. `j` grows in each round, so
-- 129 rounds bring it to 128.
unfoldable pub free_slot : ℕ → Block → ℕ → ℕ → Option ℕ
free_slot i b zero j = none
free_slot i b (suc f) j =
    let j' = if j == 0 && i == 1 then 1 else j in
    let rest = free_slot i b f (j' + 1) in
    if ltb j 128 then (if is_zero (load_inode b j').isvalid then some j' else rest) else none

-- The body of the loop over `i`, once block `i` is in `b`.
unfoldable pub create_in : ℕ → Block → Option ℕ → M ℤ → M ℤ
create_in i b none rest = rest
create_in i b (some j) rest = do
  set_bit (pos i) 1
  disk_write (pos i) (store_inode b j (cleared (pos 1)))
  pure (pos (get_inode_number i j))

-- The loop over `i`. Its bound `block.super.ninodeblocks` is read from the variable `block`, which
-- holds the superblock in the first round and the inode block of the round before in the others.
unfoldable pub create_loop : ℕ → ℕ → Block → M ℤ
create_loop zero i block = λ _. out_of_fuel
create_loop (suc f) i block =
    if leb_ℤ (pos i) (super_ninodeblocks block)
    then (do b ← disk_read (pos i); create_in i b (free_slot i b 129 0) (create_loop f (i + 1) b))
    else pure (pos 0)

-- A read of a block outside the disk aborts, so that `nblocks + 1` rounds are enough.
unfoldable pub fs_create : M ℤ
fs_create s =
    if is_mounted s.bitmap
    then (do b ← disk_read (pos 0); create_loop (s.nblocks + 1) 1 b) s
    else ok (pos 0) s

unfoldable pub delete_slot : ℤ → Block → ℕ → M ℤ
delete_slot block_num b j =
    if is_zero (load_inode b j).isvalid
    then pure (pos 0)
    else do disk_write block_num (store_inode b j (cleared (pos 0))); pure (pos 1)

unfoldable pub fs_delete : ℤ → M ℤ
fs_delete inumber = do
  super ← disk_read (pos 0)
  if ltb_ℤ (super_ninodeblocks super) (getblock_num inumber) then pure (pos 0) else do
    b ← disk_read (getblock_num inumber)
    in_table (slot_of inumber) (delete_slot (getblock_num inumber) b)

unfoldable pub size_slot : Block → ℕ → M ℤ
size_slot b j =
    if is_zero (load_inode b j).isvalid then pure (negsuc 0) else pure (load_inode b j).size

unfoldable pub fs_getsize : ℤ → M ℤ
fs_getsize inumber = do
  super ← disk_read (pos 0)
  if ltb_ℤ (super_ninodeblocks super) (getblock_num inumber)
      then pure (negsuc 0)
      else do b ← disk_read (getblock_num inumber); in_table (slot_of inumber) (size_slot b)
