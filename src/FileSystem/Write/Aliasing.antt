-- ===== src/FileSystem/Write/Aliasing.antt =====
-- A write of two sections to a new inode: getNextBlock gives the same block for both.
use c_coding_examples_operat.Common.{
  ℕ, ◌+◌, ◌-◌, ◌≤◌, ◌<◌, ◌≡◌, refl, ℤ, pos, some, arith, update, update_self, update_ne, ◌∙◌, ap,
  fun_ext, List, [], ◌∷◌, subst,
}
use c_coding_examples_operat.FileSystem.Block.{Block}
use c_coding_examples_operat.FileSystem.Inode.{Inode, store_inode}
use c_coding_examples_operat.FileSystem.Machine.{State, Bits, ok, Returns, returns}
use c_coding_examples_operat.FileSystem.Disk.{counted_read, written}
use c_coding_examples_operat.FileSystem.Bitmap.NextBlock.{HasMap, first_free-update}
use c_coding_examples_operat.FileSystem.Text.{Memory, strncpy}
use c_coding_examples_operat.FileSystem.Table.{cleared}
use c_coding_examples_operat.FileSystem.Write.{
  Writing, start, advance, next_section, write_direct, fs_write,
}
use c_coding_examples_operat.FileSystem.Write.Section.{placed, stepped, stored, write_direct-new}
use c_coding_examples_operat.FileSystem.Write.NewFile.{
  IsNew, Wrote, Wrote-written, file, p_bounds, fs_write-slot, write_direct-done, write_slot-direct,
}

module _ {s : State} {m : Bits} {nib : ℕ} {num : ℤ} {i j p : ℕ} (v : IsNew s m nib num i j p) where
  -- A write of 4097 to 8192 bytes to a new inode returns their number, but both sections went to
  -- the first free block: the first two direct pointers are that block, and it holds the bytes
  -- from 4096 on over the first ones.
  pub fs_write-two :
      (junk : Block) (src : Memory) (n : ℕ)
      → 4096 < n
      → n ≤ 8192
      → Returns
          (λ r t.
            (r ≡ pos n)
            × Wrote s i j p
                (file n (pos p ∷ pos p ∷ pos 0 ∷ pos 0 ∷ pos 0 ∷ []))
                (strncpy (strncpy junk src 4096) (λ k. src (4096 + k)) (n - 4096))
                t)
          (fs_write junk num src n 0 s)
  fs_write-two junk src n h l =
      rw
        (
          fs_write-slot v junk src n 0,
          write_slot-direct junk (s.blocks i) src n 0 i j looked after2 w2 (rw v.inode refl)
              (rw v.inode rounds) (omega (arith, size_of)) v.leads.room,
        )
        (returns (
          ap pos size_of,
          subst
              (λ (x : Inode).
                Wrote s i j p x result (written after2 i (store_inode (s.blocks i) j w2.inode)))
              (ap (λ (k : ℕ). file k pointers) size_of)
              (Wrote-written s after2 i j p w2.inode result
                (record { five = refl; ints = omega (arith, size_of, p_bounds v, v.small) })
                (omega (arith, p_bounds v)) refl
                (update_self after1.blocks p (advance src n (placed w1 p)).temp ∙ content)
                (λ k o.
                  update_ne after1.blocks p (advance src n (placed w1 p)).temp k o
                  ∙ update_ne s.blocks p (advance src n (placed w0 p)).temp k o)),
        ))
    where
      looked : State
      looked = counted_read (counted_read s)

      w0 : Writing
      w0 = start junk (cleared (pos 1)) 0

      w1 : Writing
      w1 = stepped src n w0 p

      w2 : Writing
      w2 = stepped src n w1 p

      m1 : Bits
      m1 = record m { bit = update m.bit 0 1 }

      after1 : State
      after1 = stored src n looked m w0 p

      after2 : State
      after2 = stored src n after1 m1 w1 p

      looked-map : HasMap looked m nib
      looked-map = record {
        map = v.has_map.map;
        declared = v.has_map.declared;
        super = v.has_map.super;
        room = v.has_map.room;
      }

      after1-map : HasMap after1 m1 nib
      after1-map = record {
        map = refl;
        declared = v.has_map.declared;
        super =
            rw
              (update_ne s.blocks p (advance src n (placed w0 p)).temp 0
                (omega (arith, p_bounds v)))
              v.has_map.super;
        room = v.has_map.room;
      }

      part1 : next_section n (placed w0 p) ≡ 4096
      part1 = ground arith

      part2 : next_section n (placed w1 p) ≡ n - 4096
      part2 = ground (arith, part1)

      size_of : w2.done ≡ n
      size_of = omega (arith, part1, part2)

      pointers : List ℤ
      pointers = pos p ∷ pos p ∷ pos 0 ∷ pos 0 ∷ pos 0 ∷ []

      result : Block
      result = strncpy (strncpy junk src 4096) (λ k. src (4096 + k)) (n - 4096)

      content : (advance src n (placed w1 p)).temp ≡ result
      content = λ d. strncpy (strncpy junk (plain d) (part1 d)) (moved d) (part2 d)
        where
          plain : ◌≡◌ {A = ℕ → ℕ} (λ k. src (0 + k)) src
          plain = fun_ext λ k. ap src (omega arith)

          moved : ◌≡◌ {A = ℕ → ℕ} (λ k. src (w1.from + k)) (λ k. src (4096 + k))
          moved = fun_ext λ k. ap src (omega (arith, part1))

      rounds : write_direct src n 5 w0 looked ≡ ok (some w2) after2
      rounds =
          write_direct-new src n 4 looked m nib w0 p looked-map v.free (p_bounds v).1 refl refl
            (omega arith) (omega (arith, p_bounds v, v.map_size)) (omega arith)
          ∙ write_direct-new src n 3 after1 m1 nib w1 p after1-map
              (first_free-update m (m.size - (nib + 1)) (nib + 1) 0 1 (omega arith) ∙ v.free)
              (p_bounds v).1 refl refl (omega arith) (omega (arith, p_bounds v, v.map_size))
              (omega (arith, part1))
          ∙ write_direct-done src n 3 w2 after2 (omega (arith, size_of))
