-- ===== src/FileSystem/Read.antt =====
-- fs_read of "06. File Systems/fs.c". The result is what it returns, with the text that it has put
-- into `data`. Lengths and offsets are not negative, as in every call.
pub mod RoundTrip
use c_coding_examples_operat.Common.{
  ℕ, zero, suc, ◌+◌, ◌-◌, ◌*◌, ◌/◌, ◌%◌, ◌==◌, ltb, if◌then◌else◌, ltb_ℤ, ℤ, pos, negsuc, pos_part,
  get_or, set, length, update, add_nat, is_zero, Bool, true, false, ◌&&◌, ◌||◌, Option, none, some,
  List, [], ◌∷◌, ◌++◌,
}
use c_coding_examples_operat.FileSystem.Block.{Block, load_int}
use c_coding_examples_operat.FileSystem.Inode.{Inode, load_inode, super_ninodeblocks}
use c_coding_examples_operat.FileSystem.Machine.{State, ok, undefined, M, pure, ◌>>=◌, ◌>>◌}
use c_coding_examples_operat.FileSystem.Disk.{disk_read}
use c_coding_examples_operat.FileSystem.Mount.{pointer_at, indirect_blocks}
use c_coding_examples_operat.FileSystem.Text.{Memory, text_of}
use c_coding_examples_operat.FileSystem.Table.{getblock_num, slot_of, in_table}

-- The local variables of the loops: `text` is the string in `data`, behind which the cleared buffer
-- is NUL, `total` is `totalbytesread` and `section` is `tempbytesread`.
pub record Reading : Type 0 where
  pub text : List ℕ
  pub total : ℕ
  pub section : ℕ

abbrev pub take_section : ℕ → Block → Reading → Reading
take_section n b r = record {
  text = r.text ++ text_of b 0 part;
  total = r.total + part;
  section = part;
}
  where
    part : ℕ
    part = if ltb n (r.section + r.total) then n - r.total else r.section

-- `while (direct_index_num < 5 && totalbytesread < length)`: the rounds that `direct_index_num`
-- leaves, and that index
unfoldable pub read_direct : ℕ → List ℤ → ℕ → ℕ → Reading → M Reading
read_direct n direct zero k r = pure r
read_direct n direct (suc f) k r =
    if ltb k 5 && ltb r.total n
    then (do
      b ← disk_read (get_or direct k (pos 0))
      read_direct n direct f (k + 1) (take_section n b r))
    else pure r

-- `for (i = 0; i < indirectblocks && totalbytesread < length; i++)`: the rounds left, and `i`
unfoldable pub read_pointers : ℕ → Block → ℕ → ℕ → Reading → M Reading
read_pointers n block zero i r = pure r
read_pointers n block (suc f) i r =
    if ltb r.total n
    then (do
      p ← pointer_at block i
      b ← disk_read p
      read_pointers n block f (i + 1) (take_section n b r))
    else pure r

unfoldable pub read_indirect : ℕ → Inode → Reading → M Reading
read_indirect n inode r =
    if ltb r.total n
    then (do
      block ← disk_read inode.indirect
      read_pointers n block (pos_part (indirect_blocks inode.size)) 0 (record r { section = 4096 }))
    else pure r

-- `if (inode.size < length + offset) length = inode.size - offset`
abbrev pub clip : ℤ → ℕ → ℕ → ℕ
clip size n offset = if ltb_ℤ size (pos (n + offset)) then pos_part size - offset else n

unfoldable pub read_file : Inode → ℕ → ℕ → M (ℤ × List ℕ)
read_file inode n offset = do
  r ←
      read_direct (clip inode.size n offset) inode.direct 5 (offset / 4096)
        (record { text = []; total = 0; section = 4096 })
  r' ← read_indirect (clip inode.size n offset) inode r
  pure (pos r'.total, r'.text)

-- The buffer `data` is left alone on the error paths: no text is put into it.
unfoldable pub read_slot : ℕ → ℕ → Block → ℕ → M (ℤ × List ℕ)
read_slot n offset b j =
    if is_zero (load_inode b j).isvalid
      || is_zero (load_inode b j).size
      || ltb_ℤ (load_inode b j).size (pos offset)
      || ltb 5 (offset / 4096)
    then pure (pos 0, [])
    else read_file (load_inode b j) n offset

unfoldable pub fs_read : ℤ → ℕ → ℕ → M (ℤ × List ℕ)
fs_read inumber n offset = do
  super ← disk_read (pos 0)
  if ltb_ℤ (super_ninodeblocks super) (getblock_num inumber) || is_zero (getblock_num inumber)
      then pure (negsuc 0, [])
      else do
        b ← disk_read (getblock_num inumber)
        in_table (slot_of inumber) (read_slot n offset b)
