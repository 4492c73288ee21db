-- ===== src/FileSystem/Write/Section.antt =====
-- One round of the loop of fs_write over the direct pointers.
use c_coding_examples_operat.Common.{
  ℕ, zero, suc, ◌+◌, ◌<◌, ◌≡◌, refl, ℤ, pos, some, arith, true, is_zero, get_or, set, lt→ltb, List,
  [], ◌∷◌, length,
}
use c_coding_examples_operat.FileSystem.Machine.{State, Bits, ok}
use c_coding_examples_operat.FileSystem.Disk.{disk_write-ok, counted_read, written}
use c_coding_examples_operat.FileSystem.Bitmap.Access.{set_bit-ok, marked}
use c_coding_examples_operat.FileSystem.Bitmap.NextBlock.{
  HasMap, next_free, get_next_block-next_free,
}
use c_coding_examples_operat.FileSystem.Text.{Memory}
use c_coding_examples_operat.FileSystem.Write.{
  Writing, advance, put_section, store_direct, load_direct, alloc_direct, write_direct,
}

abbrev pub placed : Writing → ℕ → Writing
placed w p = record w { inode = record (w.inode) { direct = set w.inode.direct w.index (pos p) } }

-- The local variables after a round that has put a section into the new block `p`.
abbrev pub stepped : Memory → ℕ → Writing → ℕ → Writing
stepped src n w p = record (advance src n (placed w p)) { index = w.index + 1 }

-- The state after that round: the mark goes to the index of the pointer, not to the block.
abbrev pub stored : Memory → ℕ → State → Bits → Writing → ℕ → State
stored src n s m w p =
    written (marked (counted_read s) m w.index 1) p (advance src n (placed w p)).temp

alloc_direct-new :
    (s : State) (m : Bits) (nib : ℕ) (w : Writing) (p : ℕ)
    → HasMap s m nib
    → next_free m nib ≡ pos p
    → is_zero (get_or w.inode.direct w.index (pos 0)) ≡ true
    → w.index < 5
    → w.index < m.size
    → alloc_direct w s ≡ ok (some (placed w p)) (marked (counted_read s) m w.index 1)
unfolding alloc_direct store_direct
alloc_direct-new s m nib w p h free empty l k = rw (
  empty,
  get_next_block-next_free s m nib h,
  free,
  lt→ltb w.index 5 l,
  set_bit-ok w.index 1 (counted_read s) m h.map k,
)

get_or-set_self : (xs : List ℤ) (i : ℕ) (v d : ℤ) → i < length xs → get_or (set xs i v) i d ≡ v
get_or-set_self [] i v d h = absurd (omega arith)
get_or-set_self (x ∷ xs) zero v d h = refl
get_or-set_self (x ∷ xs) (suc i) v d h = get_or-set_self xs i v d (omega arith)

pub write_direct-new :
    (src : Memory) (n f : ℕ) (s : State) (m : Bits) (nib : ℕ) (w : Writing) (p : ℕ)
    → HasMap s m nib
    → next_free m nib ≡ pos p
    → p < s.nblocks
    → is_zero (get_or w.inode.direct w.index (pos 0)) ≡ true
    → length w.inode.direct ≡ 5
    → w.index < 5
    → w.index < m.size
    → w.done < n
    → write_direct src n (suc f) w s
      ≡ write_direct src n f (stepped src n w p) (stored src n s m w p)
unfolding write_direct put_section load_direct
write_direct-new src n f s m nib w p h free room empty five l k more = rw (
  lt→ltb w.index 5 l,
  lt→ltb w.done n more,
  alloc_direct-new s m nib w p h free empty l k,
  lt→ltb w.index 5 l,
  get_or-set_self w.inode.direct w.index (pos p) (pos 0) (omega arith),
  disk_write-ok p (advance src n (placed w p)).temp (marked (counted_read s) m w.index 1) room,
)
