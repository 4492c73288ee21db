-- ===== src/FileSystem/Write/NewFile.antt =====
-- fs_write into an inode that fs_create has made.
use c_coding_examples_operat.Common.{
  ℕ, zero, suc, ◌+◌, ◌-◌, ◌≤◌, ◌<◌, ◌^◌, ◌≡◌, ◌≢◌, refl, sym, ℤ, pos, some, arith, false, is_zero,
  update_self, update_ne, ◌∙◌, ap, fun_ext, List, [], ◌∷◌, ltb_ℤ, subst,
}
use c_coding_examples_operat.FileSystem.Block.{Block}
use c_coding_examples_operat.FileSystem.Inode.{
  Inode, IsInode, load_inode, store_inode, super_ninodes, load-store_inode_self,
  load-store_inode_ne,
}
use c_coding_examples_operat.FileSystem.Machine.{State, Bits, ok, Returns, returns}
use c_coding_examples_operat.FileSystem.Disk.{disk_read-ok, disk_write-ok, counted_read, written}
use c_coding_examples_operat.FileSystem.Bitmap.NextBlock.{
  HasMap, IsFirstFree, next_free, first_free-IsFirstFree,
}
use c_coding_examples_operat.FileSystem.Text.{Memory, strncpy}
use c_coding_examples_operat.FileSystem.Table.{cleared}
use c_coding_examples_operat.FileSystem.Table.Delete.{Leads}
use c_coding_examples_operat.FileSystem.Write.{
  Writing, start, advance, next_section, write_direct, write_indirect, finish, write_slot, fs_write,
}
use c_coding_examples_operat.FileSystem.Write.Section.{placed, stepped, stored, write_direct-new}

-- The inode `n` in slot `j` of block `i` is new, and `p` is the first unmarked block.
pub record IsNew (s : State) (m : Bits) (nib : ℕ) (n : ℤ) (i j p : ℕ) : Type 0 where
  pub has_map : HasMap s m nib
  pub map_size : m.size ≡ s.nblocks
  pub small : s.nblocks < 2 ^ 31
  pub number : is_zero n ≡ false
  pub listed : ltb_ℤ (super_ninodes (s.blocks 0)) n ≡ false
  pub leads : Leads s n i j
  pub not_super : i ≢ 0
  pub inode : load_inode (s.blocks i) j ≡ cleared (pos 1)
  pub free : next_free m nib ≡ pos p

pub write_direct-done :
    (src : Memory) (n f : ℕ) (w : Writing) (s : State)
    → n ≤ w.done
    → write_direct src n f w s ≡ ok (some w) s
unfolding write_direct
write_direct-done src n zero w s h = refl
write_direct-done src n (suc f) w s h = ground arith

write_indirect-done :
    (src : Memory) (n : ℕ) (w : Writing) (s : State)
    → n ≤ w.done
    → write_indirect src n (some w) s ≡ ok (some w) s
unfolding write_indirect
write_indirect-done src n w s h = ground arith

-- A write that the direct pointers are enough for.
pub write_slot-direct :
    (junk b : Block) (src : Memory) (n offset i j : ℕ) (s t : State) (w : Writing)
    → is_zero (load_inode b j).isvalid ≡ false
    → write_direct src n 5 (start junk (load_inode b j) offset) s ≡ ok (some w) t
    → n ≤ w.done
    → i < t.nblocks
    → write_slot junk (pos i) src n offset b j s
      ≡ ok (pos w.done) (written t i (store_inode b j w.inode))
unfolding write_slot finish
write_slot-direct junk b src n offset i j s t w valid e d l =
    rw (valid, e, write_indirect-done src n w t d, disk_write-ok i (store_inode b j w.inode) t l)

module _ {s : State} {m : Bits} {nib : ℕ} {num : ℤ} {i j p : ℕ} (v : IsNew s m nib num i j p) where
  pub first : IsFirstFree m (m.size - (nib + 1)) (nib + 1) p
  first = first_free-IsFirstFree m (m.size - (nib + 1)) (nib + 1) v.free

  pub block_of_table : i ≤ nib
  block_of_table =
      let e = v.leads.listed in
      let f : ltb_ℤ (pos nib) (pos i) ≡ false = rw (v.has_map.super) at e in ground arith

  pub p_bounds : (nib < p) × (p < s.nblocks) × (i < p)
  p_bounds = omega (arith, first.from, first.below, block_of_table, v.map_size)

  pub fs_write-slot :
      (junk : Block) (src : Memory) (n offset : ℕ)
      → fs_write junk num src n offset s
        ≡ write_slot junk (pos i) src n offset (s.blocks i) j (counted_read (counted_read s))
  unfolding fs_write
  fs_write-slot junk src n offset = rw (
    disk_read-ok 0 s v.has_map.room,
    v.number,
    v.listed,
    v.leads.block,
    disk_read-ok i (counted_read s) v.leads.room,
    v.leads.slot,
  )

-- The inode after a write of `n` bytes with these direct pointers.
abbrev pub file : ℕ → List ℤ → Inode
file n direct = record { isvalid = pos 1; size = pos n; direct = direct; indirect = pos 0 }

-- The state after a write that went to block `p`: nothing else has changed but the inode.
pub record Wrote (s : State) (i j p : ℕ) (inode : Inode) (content : Block) (t : State)
    : Type 0 where
  pub inode_set : load_inode (t.blocks i) j ≡ inode
  pub content_set : t.blocks p ≡ content
  pub other_inodes : (k : ℕ) → k ≢ j → load_inode (t.blocks i) k ≡ load_inode (s.blocks i) k
  pub other_blocks : (k : ℕ) → k ≢ i → k ≢ p → t.blocks k ≡ s.blocks k
  pub same_size : t.nblocks ≡ s.nblocks

-- Two writes, of the data and of the inode, make such a state.
pub Wrote-written :
    (s u : State) (i j p : ℕ) (inode : Inode) (content : Block)
    → IsInode inode
    → i ≢ p
    → u.nblocks ≡ s.nblocks
    → u.blocks p ≡ content
    → ((k : ℕ) → k ≢ p → u.blocks k ≡ s.blocks k)
    → Wrote s i j p inode content (written u i (store_inode (s.blocks i) j inode))
Wrote-written s u i j p inode content v ne size at same = record {
  inode_set = rw (update_self u.blocks i new) (load-store_inode_self (s.blocks i) j inode v);
  content_set = update_ne u.blocks i new p (λ e. ne (sym e)) ∙ at;
  other_inodes =
      λ k o. rw (update_self u.blocks i new) (load-store_inode_ne (s.blocks i) j k inode v o);
  other_blocks = λ k a b. update_ne u.blocks i new k a ∙ same k b;
  same_size = size;
}
  where
    new : Block
    new = store_inode (s.blocks i) j inode

module _ {s : State} {m : Bits} {nib : ℕ} {num : ℤ} {i j p : ℕ} (v : IsNew s m nib num i j p) where
  -- A write of 1 to 4096 bytes to a new inode returns their number. The bytes are in the first
  -- free block, the inode has that block and the size, and no other inode or block has changed.
  pub fs_write-one :
      (junk : Block) (src : Memory) (n : ℕ)
      → 0 < n
      → n ≤ 4096
      → Returns
          (λ r t.
            (r ≡ pos n)
            × Wrote s i j p
                (file n (pos p ∷ pos 0 ∷ pos 0 ∷ pos 0 ∷ pos 0 ∷ []))
                (strncpy junk src n)
                t)
          (fs_write junk num src n 0 s)
  fs_write-one junk src n h l =
      rw
        (
          fs_write-slot v junk src n 0,
          write_slot-direct junk (s.blocks i) src n 0 i j looked after w1 (rw v.inode refl)
              (rw v.inode round) (omega (arith, size_of)) v.leads.room,
        )
        (returns (
          ap pos size_of,
          subst
              (λ (x : Inode).
                Wrote s i j p x (strncpy junk src n)
                  (written after i (store_inode (s.blocks i) j w1.inode)))
              (ap (λ (k : ℕ). file k pointers) size_of)
              (Wrote-written s after i j p w1.inode (strncpy junk src n)
                (record { five = refl; ints = omega (arith, size_of, p_bounds v, v.small) })
                (omega (arith, p_bounds v)) refl
                (update_self s.blocks p (advance src n (placed w0 p)).temp ∙ content)
                (λ k o. update_ne s.blocks p (advance src n (placed w0 p)).temp k o)),
        ))
    where
      looked : State
      looked = counted_read (counted_read s)

      w0 : Writing
      w0 = start junk (cleared (pos 1)) 0

      w1 : Writing
      w1 = stepped src n w0 p

      after : State
      after = stored src n looked m w0 p

      looked-map : HasMap looked m nib
      looked-map = record {
        map = v.has_map.map;
        declared = v.has_map.declared;
        super = v.has_map.super;
        room = v.has_map.room;
      }

      pointers : List ℤ
      pointers = pos p ∷ pos 0 ∷ pos 0 ∷ pos 0 ∷ pos 0 ∷ []

      content : (advance src n (placed w0 p)).temp ≡ strncpy junk src n
      content = λ d. strncpy junk (plain d) (part d)
        where
          plain : ◌≡◌ {A = ℕ → ℕ} (λ k. src (0 + k)) src
          plain = fun_ext λ k. ap src (omega arith)

          part : next_section n (placed w0 p) ≡ n
          part = ground arith

      size_of : w1.done ≡ n
      size_of = ground arith

      round : write_direct src n 5 w0 looked ≡ ok (some w1) after
      round =
          write_direct-new src n 4 looked m nib w0 p looked-map v.free (p_bounds v).1 refl refl
            (omega arith) (omega (arith, p_bounds v, v.map_size)) h
          ∙ write_direct-done src n 4 w1 after (omega (arith, size_of))
