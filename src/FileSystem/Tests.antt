-- ===== src/FileSystem/Tests.antt =====
-- Concrete disks of 20 blocks, and the theorems at them.
use c_coding_examples_operat.Common.{
  ℕ, ◌%◌, ◌<◌, ◌≡◌, ◌≢◌, refl, ◌==◌, ◌&&◌, if◌then◌else◌, not, pos, negsuc, some, none, arith, [],
  ◌∷◌, update, is_zero, true, false,
}
use c_coding_examples_operat.FileSystem.Block.{Block, load_int, store_int}
use c_coding_examples_operat.FileSystem.Inode.{
  load_inode, store_inode, store_ints, super_magic, super_ninodeblocks, load-store_inode_self,
}
use c_coding_examples_operat.FileSystem.Machine.{State, Bits, ok, out_of_fuel, Returns}
use c_coding_examples_operat.FileSystem.Disk.{counted_read}
use c_coding_examples_operat.FileSystem.Format.{fs_format, zero_block, super_block, inode_blocks}
use c_coding_examples_operat.FileSystem.Format.Layout.{Formatted, fs_format-Formatted}
use c_coding_examples_operat.FileSystem.Bitmap.NextBlock.{HasMap, first_free}
use c_coding_examples_operat.FileSystem.Text.{strncpy}
use c_coding_examples_operat.FileSystem.Table.{
  cleared, fs_create, fs_delete, fs_getsize, getblock_num,
}
use c_coding_examples_operat.FileSystem.Table.Create.{
  IsReady, Created, fs_create-Created, fs_create_exhausted, fs_create_terminates,
}
use c_coding_examples_operat.FileSystem.Table.Delete.{Leads, fs_getsize-fs_delete, fs_delete_zero}
use c_coding_examples_operat.FileSystem.Write.{fs_write}
use c_coding_examples_operat.FileSystem.Write.NewFile.{IsNew, Wrote, file}
use c_coding_examples_operat.FileSystem.Write.Aliasing.{fs_write-two}
use c_coding_examples_operat.FileSystem.Read.{fs_read}
use c_coding_examples_operat.FileSystem.Read.RoundTrip.{fs_read-fs_write}
use c_coding_examples_operat.FileSystem.Copy.{do_copyin, do_copyout}
use c_coding_examples_operat.FileSystem.Copy.ReadOnly.{Quiet}
use c_coding_examples_operat.FileSystem.Copy.Bounds.{do_copyout-Quiet}
use c_coding_examples_operat.FileSystem.Copy.RoundTrip.{do_copyout-do_copyin}

-- an image of zeros, not formatted
abbrev pub blank : State
blank = record {
  nblocks = 20;
  sized = refl;
  blocks = λ _. zero_block;
  nreads = 0;
  nwrites = 0;
  bitmap = none;
  size_bitmap = pos 0;
}

abbrev pub map_20 : Bits
map_20 = record { size = 20; bit = λ _. 0 }

abbrev super_20 : Block
super_20 = super_block zero_block 20

-- formatted and mounted, with `table` in block 1
abbrev with_table : Block → State
with_table table = record {
  nblocks = 20;
  sized = refl;
  blocks = update (update (λ _. zero_block) 0 super_20) 1 table;
  nreads = 0;
  nwrites = 0;
  bitmap = some map_20;
  size_bitmap = pos 20;
}

abbrev mounted : State
mounted = with_table zero_block

-- the inode 5 has been created
abbrev table_5 : Block
table_5 = store_inode zero_block 5 (cleared (pos 1))

abbrev pub one_file : State
one_file = with_table table_5

-- every slot but slot 0 is in use
abbrev full_table : Block
full_table k = if k % 32 == 0 && not (k == 0) then 1 else 0

abbrev full : State
full = with_table full_table

fs_format-Formatted_example : Returns (Formatted blank) (fs_format zero_block blank)
fs_format-Formatted_example = fs_format-Formatted zero_block blank refl (omega arith)

super_20-count : super_ninodeblocks super_20 ≡ pos 2
unfolding load_int store_ints store_int inode_blocks
super_20-count = refl

mounted-IsReady : IsReady mounted map_20 2
mounted-IsReady = record {
  map = refl;
  map_size = refl;
  super = super_20-count;
  some_inodes = omega arith;
  room = omega arith;
}

zero_block-free : is_zero (load_inode zero_block 1).isvalid ≡ true
unfolding load_inode load_int
zero_block-free = refl

fs_create-Created_example : Returns (Created mounted map_20) (fs_create mounted)
fs_create-Created_example =
    fs_create-Created mounted map_20 2 1 mounted-IsReady (omega arith) (omega arith) zero_block-free

full-IsReady : IsReady full map_20 2
full-IsReady = record {
  map = refl;
  map_size = refl;
  super = super_20-count;
  some_inodes = omega arith;
  room = omega arith;
}

full_table-used : (j : ℕ) → j < 128 → j ≢ 0 → is_zero (load_inode full_table j).isvalid ≡ false
unfolding load_inode load_int
full_table-used j l ne = ground arith

full_table-pointer : super_ninodeblocks full_table ≡ pos 0
unfolding load_int
full_table-pointer = refl

-- block 2 has 128 unused inodes, and fs_create fails
fs_create_exhausted_example : fs_create full ≡ ok (pos 0) (counted_read (counted_read full))
fs_create_exhausted_example =
    fs_create_exhausted full map_20 2 full-IsReady full_table-used (rw full_table-pointer refl)

fs_create_terminates_example : ¬ (fs_create full ≡ out_of_fuel)
fs_create_terminates_example = fs_create_terminates full

with_table-Leads : (table : Block) → Leads (with_table table) (pos 5) 1 5
unfolding getblock_num
with_table-Leads table = record {
  block = refl;
  slot = refl;
  listed = rw super_20-count refl;
  room = omega arith;
}

table_5-used : is_zero (load_inode table_5 5).isvalid ≡ false
table_5-used = rw (load-store_inode_self zero_block 5 (cleared (pos 1)) (omega arith)) refl

zero_block-free_5 : is_zero (load_inode zero_block 5).isvalid ≡ true
unfolding load_inode load_int
zero_block-free_5 = refl

fs_getsize-fs_delete_example :
    Returns
      (λ r t. (r ≡ pos 1) × Returns (λ size u. size ≡ negsuc 0) (fs_getsize (pos 5) t))
      (fs_delete (pos 5) one_file)
fs_getsize-fs_delete_example =
    fs_getsize-fs_delete one_file (pos 5) 1 5 (with_table-Leads table_5) (omega arith) table_5-used

super_20-magic : is_zero (super_magic super_20) ≡ false
unfolding load_int store_ints store_int inode_blocks
super_20-magic = refl

fs_delete_zero_example :
    Returns
      (λ r t.
        (r ≡ pos 1)
        × (super_magic (t.blocks 0) ≡ pos 0)
        × (super_ninodeblocks (t.blocks 0) ≡ pos 0))
      (fs_delete (pos 0) mounted)
fs_delete_zero_example =
    fs_delete_zero mounted (omega arith) super_20-magic (rw super_20-count refl)

one_file-HasMap : HasMap one_file map_20 2
one_file-HasMap = record { map = refl; declared = refl; super = super_20-count; room = omega arith }

pub one_file-IsNew : IsNew one_file map_20 2 (pos 5) 1 5 3
unfolding load_int store_ints store_int inode_blocks first_free
one_file-IsNew = record {
  has_map = one_file-HasMap;
  map_size = refl;
  small = omega arith;
  number = refl;
  listed = refl;
  leads = with_table-Leads table_5;
  not_super = omega arith;
  inode = load-store_inode_self zero_block 5 (cleared (pos 1)) (omega arith);
  free = refl;
}

fs_write-two_example :
    Returns
      (λ r t.
        (r ≡ pos 5000)
        × Wrote one_file 1 5 3
            (file 5000 (pos 3 ∷ pos 3 ∷ pos 0 ∷ pos 0 ∷ pos 0 ∷ []))
            (strncpy (strncpy zero_block (λ _. b'A') 4096) (λ k. b'A') 904)
            t)
      (fs_write zero_block (pos 5) (λ _. b'A') 5000 0 one_file)
fs_write-two_example =
    fs_write-two one_file-IsNew zero_block (λ _. b'A') 5000 (omega arith) (omega arith)

fs_read-fs_write_example :
    Returns
      (λ r t.
        (r ≡ pos 3)
        × Returns (λ out u. out ≡ (pos 3, b'A' ∷ b'A' ∷ b'A' ∷ [])) (fs_read (pos 5) 16384 0 t))
      (fs_write zero_block (pos 5) (λ _. b'A') 3 0 one_file)
fs_read-fs_write_example =
    fs_read-fs_write zero_block (λ _. b'A') 3 16384 one_file-IsNew (omega arith) (omega arith)
      (omega arith) (λ k l. omega arith)

do_copyout-Quiet_example : Quiet one_file (λ r. r.1 < 40960) (do_copyout true (pos 5) one_file)
do_copyout-Quiet_example = do_copyout-Quiet true (pos 5) one_file

do_copyout-do_copyin_example :
    Returns
      (λ r t.
        (r ≡ (pos 1, 2))
        × Returns (λ out u. out ≡ (pos 1, 2, b'A' ∷ b'B' ∷ [])) (do_copyout true (pos 5) t))
      (do_copyin (λ _. zero_block) (λ _. 0) (some (b'A' ∷ b'B' ∷ [])) (pos 5) one_file)
do_copyout-do_copyin_example =
    do_copyout-do_copyin (λ _. zero_block) (λ _. 0) (b'A' ∷ b'B' ∷ []) one_file-IsNew (omega arith)
      (omega arith) ((λ e. omega arith), ((λ e. omega arith), tt))
