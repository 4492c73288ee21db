-- ===== src/FileSystem/Write.antt =====
-- fs_write of "06. File Systems/fs.c". Lengths and offsets are not negative: the callers pass sizes
-- of buffers, counts of fread and sums of them.
pub mod Section
pub mod NewFile
pub mod Aliasing
use c_coding_examples_operat.Common.{
  ℕ, zero, suc, ◌+◌, ◌-◌, ◌*◌, ◌/◌, ◌%◌, ◌==◌, ltb, if◌then◌else◌, ltb_ℤ, ℤ, pos, negsuc, pos_part,
  get_or, set, length, update, add_nat, is_zero, is_minus_one, Bool, true, false, ◌&&◌, ◌||◌,
  Option, none, some,
}
use c_coding_examples_operat.FileSystem.Block.{Block, load_int}
use c_coding_examples_operat.FileSystem.Inode.{Inode, load_inode, store_inode, super_ninodes}
use c_coding_examples_operat.FileSystem.Machine.{
  State, ok, undefined, out_of_fuel, M, pure, ◌>>=◌, ◌>>◌,
}
use c_coding_examples_operat.FileSystem.Disk.{disk_read, disk_write}
use c_coding_examples_operat.FileSystem.Bitmap.{set_bit, get_next_block}
use c_coding_examples_operat.FileSystem.Mount.{pointer_at}
use c_coding_examples_operat.FileSystem.Text.{Memory, strncpy}
use c_coding_examples_operat.FileSystem.Table.{getblock_num, slot_of, in_table}

-- The local variables of the loops. `from` is how far `data` has moved, `temp` the block buffer,
-- `index` is `overallIndex` and `done` is `written_bytes`.
pub record Writing : Type 0 where
  pub inode : Inode
  pub temp : Block
  pub section : ℕ
  pub done : ℕ
  pub from : ℕ
  pub index : ℕ

abbrev pub next_section : ℕ → Writing → ℕ
next_section n w = if ltb n (w.section + w.done) then n - w.done else w.section

abbrev pub advance : Memory → ℕ → Writing → Writing
advance src n w = record w {
  inode = record (w.inode) { size = add_nat w.inode.size (next_section n w) };
  temp = strncpy w.temp (λ k. src (w.from + k)) (next_section n w);
  section = next_section n w;
  done = w.done + next_section n w;
  from = w.from + next_section n w;
}

-- What both loops do once the block of the section is known: it is `z`.
unfoldable pub put_section : Memory → ℕ → ℤ → Writing → M Writing
put_section src n z w = do disk_write z (advance src n w).temp; pure (advance src n w)

-- `inode.direct[overallIndex] = z`
unfoldable pub store_direct : ℤ → Writing → M (Option Writing)
store_direct z w s =
    if ltb w.index 5
    then ok (some (record w { inode = record (w.inode) { direct = set w.inode.direct w.index z } }))
        s
    else undefined

-- `inode.direct[overallIndex]`
unfoldable pub load_direct : Writing → M ℤ
load_direct w s = if ltb w.index 5 then ok (get_or w.inode.direct w.index (pos 0)) s else undefined

-- A block for the section where there is none yet. `none` is the early `return -1`.
unfoldable pub alloc_direct : Writing → M (Option Writing)
alloc_direct w =
    if is_zero (get_or w.inode.direct w.index (pos 0))
    then (do
      i ← get_next_block
      if is_minus_one i
          then pure none
          else (do o ← store_direct i w; set_bit (pos w.index) 1; pure o))
    else pure (some w)

abbrev pub direct_round :
    Memory → ℕ → Option Writing → (Writing → M (Option Writing)) → M (Option Writing)
direct_round src n none next = pure none
direct_round src n (some w) next = do
  z ← load_direct w
  w' ← put_section src n z w
  next (record w' { index = w'.index + 1 })

-- `while (overallIndex < 5 && written_bytes < length)`: `overallIndex` grows, so that 5 rounds are
-- enough.
unfoldable pub write_direct : Memory → ℕ → ℕ → Writing → M (Option Writing)
write_direct src n zero w = pure (some w)
write_direct src n (suc f) w =
    if ltb w.index 5 && ltb w.done n
    then (do o ← alloc_direct w; direct_round src n o (write_direct src n f))
    else pure (some w)

unfoldable pub alloc_indirect : Writing → M (Option Writing)
alloc_indirect w =
    if is_zero w.inode.indirect
    then (do
      i ← get_next_block
      if is_minus_one i then pure none else (do
        set_bit i 1
        pure (some (record w { inode = record (w.inode) { indirect = i } }))))
    else pure (some w)

unfoldable pub alloc_pointer : ℤ → Writing → M (Option Writing)
alloc_pointer p w =
    if is_zero p
    then (do i ← get_next_block; if is_minus_one i then pure none else store_direct i w)
    else pure (some w)

abbrev pub pointer_round :
    Memory → ℕ → Option Writing → (Writing → M (Option Writing)) → M (Option Writing)
pointer_round src n none next = pure none
pointer_round src n (some w) next = do z ← load_direct w; w' ← put_section src n z w; next w'

-- `for (blockIndex = 0; written_bytes < length; blockIndex++)`
unfoldable pub write_pointers : Memory → ℕ → Block → ℕ → ℕ → Writing → M (Option Writing)
write_pointers src n block zero q w = λ _. out_of_fuel
write_pointers src n block (suc f) q w =
    if ltb w.done n
    then (do
      p ← pointer_at block q
      o ← alloc_pointer p w
      pointer_round src n o (write_pointers src n block f (q + 1)))
    else pure (some w)

abbrev pub through_indirect : Memory → ℕ → Option Writing → M (Option Writing)
through_indirect src n none = pure none
through_indirect src n (some w) = do
  block ← disk_read w.inode.indirect
  write_pointers src n block (n + 1) 0 w

unfoldable pub write_indirect : Memory → ℕ → Option Writing → M (Option Writing)
write_indirect src n none = pure none
write_indirect src n (some w) =
    if ltb w.done n then (do o ← alloc_indirect w; through_indirect src n o) else pure (some w)

-- The inode goes back into its table, unless a loop has returned -1.
unfoldable pub finish : ℤ → Block → ℕ → Option Writing → M ℤ
finish block_num b j none = pure (negsuc 0)
finish block_num b j (some w) = do disk_write block_num (store_inode b j w.inode); pure (pos w.done)

-- `junk` is what the stack holds in `temp`.
abbrev pub start : Block → Inode → ℕ → Writing
start junk n offset = record {
  inode = n;
  temp = junk;
  section = 4096;
  done = 0;
  from = 0;
  index = offset / 4096;
}

unfoldable pub write_slot : Block → ℤ → Memory → ℕ → ℕ → Block → ℕ → M ℤ
write_slot junk block_num src n offset b j =
    if is_zero (load_inode b j).isvalid then pure (pos 0) else do
      o ← write_direct src n 5 (start junk (load_inode b j) offset)
      o' ← write_indirect src n o
      finish block_num b j o'

unfoldable pub fs_write : Block → ℤ → Memory → ℕ → ℕ → M ℤ
fs_write junk inumber src n offset = do
  super ← disk_read (pos 0)
  if is_zero inumber || ltb_ℤ (super_ninodes super) inumber then pure (pos 0) else do
    b ← disk_read (getblock_num inumber)
    in_table (slot_of inumber) (write_slot junk (getblock_num inumber) src n offset b)
