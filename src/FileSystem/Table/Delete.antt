-- ===== src/FileSystem/Table/Delete.antt =====
-- fs_delete and fs_getsize.
use c_coding_examples_operat.Common.{
  ℕ, ◌<◌, ◌≡◌, refl, ◌≢◌, if◌then◌else◌, ℤ, pos, negsuc, some, arith, ap, sym, ◌∙◌, true, false,
  is_zero, ltb_ℤ, get_or, update_self,
}
use c_coding_examples_operat.FileSystem.Block.{Block}
use c_coding_examples_operat.FileSystem.Inode.{
  Inode, load_inode, store_inode, super_ninodeblocks, super_magic, IsInode, load-store_inode_self,
  load-store_inode_ne,
}
use c_coding_examples_operat.FileSystem.Machine.{State, ok, Returns, returns, Returns-mono}
use c_coding_examples_operat.FileSystem.Disk.{disk_read-ok, disk_write-ok, counted_read}
use c_coding_examples_operat.FileSystem.Table.{
  cleared, getblock_num, slot_of, delete_slot, fs_delete, size_slot, fs_getsize,
}
use c_coding_examples_operat.FileSystem.Table.FreeSlot.{IsFree, IsUsed}

-- The number `n` leads to slot `j` of block `i` of the table of `s`.
pub record Leads (s : State) (n : ℤ) (i j : ℕ) : Type 0 where
  pub block : getblock_num n ≡ pos i
  pub slot : slot_of n ≡ some j
  pub listed : ltb_ℤ (super_ninodeblocks (s.blocks 0)) (pos i) ≡ false
  pub room : i < s.nblocks

-- the two reads of each operation
abbrev looked : State → State
looked s = counted_read (counted_read s)

pub fs_delete-slot :
    (s : State) (n : ℤ) (i j : ℕ)
    → Leads s n i j
    → fs_delete n s ≡ delete_slot (pos i) (s.blocks i) j (looked s)
unfolding fs_delete
fs_delete-slot s n i j l = rw (
  disk_read-ok 0 s (omega (arith, l.room)),
  l.block,
  l.listed,
  disk_read-ok i (counted_read s) l.room,
  l.slot,
)

pub fs_getsize-slot :
    (s : State) (n : ℤ) (i j : ℕ)
    → Leads s n i j
    → fs_getsize n s ≡ size_slot (s.blocks i) j (looked s)
unfolding fs_getsize
fs_getsize-slot s n i j l = rw (
  disk_read-ok 0 s (omega (arith, l.room)),
  l.block,
  l.listed,
  disk_read-ok i (counted_read s) l.room,
  l.slot,
)

-- fs_getsize returns the size of a valid inode and -1 for an invalid one.
pub fs_getsize_lem :
    (s : State) (n : ℤ) (i j : ℕ)
    → Leads s n i j
    → fs_getsize n s
      ≡ ok
          (if is_zero (load_inode (s.blocks i) j).isvalid
            then negsuc 0
            else (load_inode (s.blocks i) j).size)
          (looked s)
fs_getsize_lem s n i j l = fs_getsize-slot s n i j l ∙ (unfold size_slot in ground arith)

abbrev deleted : Block → ℕ → Block
deleted b j = store_inode b j (cleared (pos 0))

cleared-IsInode : IsInode (cleared (pos 0))
cleared-IsInode = omega arith

-- What fs_delete has done with a valid inode.
pub record Deleted (s : State) (n : ℤ) (i j : ℕ) (r : ℤ) (t : State) : Type 0 where
  pub result : r ≡ pos 1
  pub inode : load_inode (t.blocks i) j ≡ cleared (pos 0)
  pub other_inodes : (k : ℕ) → k ≢ j → load_inode (t.blocks i) k ≡ load_inode (s.blocks i) k
  pub other_blocks : (k : ℕ) → k ≢ i → t.blocks k ≡ s.blocks k
  pub same_size : t.nblocks ≡ s.nblocks
  pub same_map : t.bitmap ≡ s.bitmap

-- Let a number lead to a slot of a block that the superblock lists and the disk has. Then
-- fs_delete of a valid inode returns 1; the inode is then invalid, of size 0 and with no blocks,
-- and no other inode, block or mark has changed: the blocks of the file stay marked.
pub fs_delete-Deleted :
    (s : State) (n : ℤ) (i j : ℕ)
    → Leads s n i j
    → IsUsed (s.blocks i) j
    → Returns (Deleted s n i j) (fs_delete n s)
fs_delete-Deleted s n i j l used = rw (fs_delete-slot s n i j l) (
    unfold delete_slot in
    rw (used, disk_write-ok i (deleted (s.blocks i) j) (looked s) l.room)
      (returns (record {
        result = refl;
        inode =
            rw (update_self s.blocks i (deleted (s.blocks i) j))
              (load-store_inode_self (s.blocks i) j (cleared (pos 0)) cleared-IsInode);
        other_inodes = λ k o.
            rw (update_self s.blocks i (deleted (s.blocks i) j))
              (load-store_inode_ne (s.blocks i) j k (cleared (pos 0)) cleared-IsInode o);
        other_blocks = λ k o. ground arith;
        same_size = refl;
        same_map = refl;
      })))

-- Let a number lead to a slot of a block that the superblock lists and the disk has. Then
-- fs_delete of an invalid inode returns 0, and leaves the disk and the bitmap as they are.
pub fs_delete_invalid :
    (s : State) (n : ℤ) (i j : ℕ)
    → Leads s n i j
    → IsFree (s.blocks i) j
    → fs_delete n s ≡ ok (pos 0) (looked s)
fs_delete_invalid s n i j l free = fs_delete-slot s n i j l ∙ (unfold delete_slot in rw free)

-- Let a number lead to a slot of a block that the superblock lists and the disk has, other than
-- the superblock, and let the inode there be valid. Then fs_delete returns 1, and fs_getsize of
-- the number afterwards -1.
pub fs_getsize-fs_delete :
    (s : State) (n : ℤ) (i j : ℕ)
    → Leads s n i j
    → i ≢ 0
    → IsUsed (s.blocks i) j
    → Returns
        (λ r t. (r ≡ pos 1) × Returns (λ size u. size ≡ negsuc 0) (fs_getsize n t))
        (fs_delete n s)
fs_getsize-fs_delete s n i j l ne used = Returns-mono (fs_delete-Deleted s n i j l used) λ r t d.
    let l' : Leads t n i j = record {
      block = l.block;
      slot = l.slot;
      listed = rw (d.other_blocks 0 (λ e. ne (sym e))) l.listed;
      room = rw d.same_size l.room;
    } in
    let gone : is_zero (load_inode (t.blocks i) j).isvalid ≡ true = rw d.inode refl in
    (d.result, rw (fs_getsize_lem t n i j l', gone) (returns refl))

-- The number 0 leads to slot 0 of block 0, the superblock. On a disk with a block, with a magic
-- number that is not 0 and a count of inode blocks that is not negative, fs_delete 0 returns 1 and
-- has set the magic number and the count of inode blocks to 0.
pub fs_delete_zero :
    (s : State)
    → 0 < s.nblocks
    → is_zero (super_magic (s.blocks 0)) ≡ false
    → ltb_ℤ (super_ninodeblocks (s.blocks 0)) (pos 0) ≡ false
    → Returns
        (λ r t.
          (r ≡ pos 1)
          × (super_magic (t.blocks 0) ≡ pos 0)
          × (super_ninodeblocks (t.blocks 0) ≡ pos 0))
        (fs_delete (pos 0) s)
fs_delete_zero s room magic listed =
    Returns-mono (fs_delete-Deleted s (pos 0) 0 0 leads (unfold load_inode in magic)) λ r t d. (
      d.result,
      (unfold load_inode in ap (λ (n : Inode). n.isvalid) d.inode),
      (unfold load_inode in ap (λ (n : Inode). get_or n.direct 0 (pos 0)) d.inode),
    )
  where
    leads : Leads s (pos 0) 0 0
    leads = record {
      block = unfold getblock_num in refl;
      slot = refl;
      listed = listed;
      room = room;
    }
