-- ===== src/VirtualMemory/Handler/Random.antt =====
-- The handler with the algorithms "rand" and "custom".
use c_coding_examples_operat.Common.{
  ℕ, ◌+◌, ◌-◌, ◌%◌, ◌≤◌, ◌<◌, ◌≡◌, refl, Bool, true, false, not, ◌&&◌, Option, arith, lt→ltb,
  Bool-cases, inl, inr, ◌⊎◌, List, [], ◌∷◌,
}
use c_coding_examples_operat.Common.Run.{Run, ok, and_then, Returns, returns}
use c_coding_examples_operat.VirtualMemory.Memory.{
  Core, Algorithm, rand, fifo, custom, other, Vm, has_read,
}
use c_coding_examples_operat.VirtualMemory.PageTable.{page_table_get_entry}
use c_coding_examples_operat.VirtualMemory.Handler.{
  counted_fault, pick, pick_random, is_recent, with_rands, load_page, replace, page_fault_handler,
}
use c_coding_examples_operat.VirtualMemory.Handler.Load.{
  Room, CanNote, use_free-loaded, replace-replaced, Scanned, free, none_free, scan_frames-Scanned,
  page_fault_handler-absent,
}
use c_coding_examples_operat.VirtualMemory.Handler.Fifo.{Served}
use c_coding_examples_operat.VirtualMemory.View.{
  Resident, Inv, comes_in-Inv, view-comes_in, takes_over-Inv, view-takes_over,
}

abbrev pub is_random : Algorithm → Bool
is_random rand = true
is_random custom = true
is_random _ = false

-- the pages that the loop of the algorithm passes over, from CUSTOM and its two indices
abbrev pub skips : Algorithm → (ℕ → ℕ) → ℕ → ℕ → ℕ → Bool
skips custom cells push pop n = is_recent cells (push + 1 - pop) pop n
skips _ cells push pop n = false

abbrev pub skips_in : Algorithm → Vm → ℕ → Bool
skips_in a s = skips a s.custom_cells s.custom_push s.custom_pop

pick-random :
    (a : Algorithm) (s : Vm)
    → is_random a ≡ true
    → Room a s.push_index s.custom_push
    → pick a s ≡ pick_random (skips_in a) s.rands s
unfolding pick
pick-random rand s e h = refl
pick-random fifo s e h = cc
pick-random custom s e h = rw (lt→ltb s.custom_push 4096 h)
pick-random other s e h = cc

-- One of the random numbers gives a page that the loop takes: in memory, and not passed over.
abbrev pub SomeTaken : (ℕ → Bool) → Core → List ℕ → Type 0
SomeTaken skip c [] = ⊥
SomeTaken skip c (r ∷ rs) =
    ((not (skip (r % c.npages)) && has_read (c.bits (r % c.npages))) ≡ true) ⊎ SomeTaken skip c rs

-- The loop returns a page in memory, with its entry, and has only used random numbers.
data Picked (s : Vm) : Run Vm (ℕ × ℕ × ℕ) → Type 0 where
  picked :
      (v : ℕ) (rs : List ℕ)
      → Resident s.core v
      → Picked s (ok (v, s.mapping v, s.bits v) (with_rands s rs))

pick_random-Picked :
    (skip : Vm → ℕ → Bool) (rs : List ℕ) (s : Vm)
    → 0 < s.npages
    → SomeTaken (skip s) s.core rs
    → Picked s (pick_random skip rs s)
unfolding pick_random page_table_get_entry
pick_random-Picked skip [] s h t = absurd t
pick_random-Picked skip (r ∷ rs) s h t =
    rw (lt→ltb (r % s.npages) s.npages (grind arith))
      (elim (Bool-cases (not (skip s (r % s.npages)) && has_read (s.bits (r % s.npages)))) [
        | inl hit ↦ rw hit (picked (r % s.npages) rs (ground arith))
        | inr miss ↦ rw miss (pick_random-Picked skip rs s h (rest t miss))
      ])
  where
    rest : {b : Bool} {P : Type 0} → (b ≡ true) ⊎ P → b ≡ false → P
    rest (inl a) m = cc
    rest (inr p) m = p

load_page-random :
    (s : Vm) (page : ℕ) {r : Run Vm (Option ℕ)}
    → is_random s.algorithm ≡ true
    → Inv s.core
    → page < s.npages
    → has_read (s.bits page) ≡ false
    → CanNote s
    → SomeTaken (skips_in s.algorithm s) s.core s.rands
    → Scanned (counted_fault s) 0 s.nframes r
    → Returns (λ _ t. Inv t.core × Served s page t) (and_then r (load_page page))
unfolding load_page
load_page-random s page alg inv page_in absent room taken (free i l z) =
    rw (use_free-loaded page i (counted_fault s) page_in (omega arith) room) (
      returns (
        comes_in-Inv s.core inv page page_in absent i (omega arith) z,
        record {
          readable = ground arith;
          same_view = view-comes_in s.core inv page page_in absent i (omega arith) z;
          one_fault = refl;
          one_read = refl;
          same_range = refl;
        },
      ))
load_page-random s page alg inv page_in absent room taken (none_free all) =
    rw (pick-random s.algorithm (counted_fault s) alg room) (
      over
        (pick_random-Picked (skips_in s.algorithm) s.rands (counted_fault s) (omega arith) taken))
  where
    over :
        {r : Run Vm (ℕ × ℕ × ℕ)}
        → Picked (counted_fault s) r
        → Returns
            (λ _ t. Inv t.core × Served s page t)
            (and_then r (λ (v, f, b). replace page v f b))
    over (picked v rs here) =
        rw
          (replace-replaced page v (with_rands (counted_fault s) rs) page_in (inv.in_range v here)
            (inv.frame_in v here) room)
          (returns (
            takes_over-Inv s.core inv page page_in absent v here,
            record {
              readable = ground arith;
              same_view = view-takes_over s.core inv page page_in absent v here;
              one_fault = refl;
              one_read = refl;
              same_range = refl;
            },
          ))

-- With the algorithms "rand" and "custom", up to 1024 frames and, for "custom", a cell left in
-- CUSTOM, let one of the next random numbers give a page in memory that the loop does not pass
-- over. Then the handler returns from a fault at a page that is not in memory: the page can be
-- read, the content of every page is as it was, one fault and one read of the disk are counted,
-- and the invariant of the page table holds again.
pub page_fault_handler-random :
    (s : Vm) (page : ℕ)
    → is_random s.algorithm ≡ true
    → Inv s.core
    → s.nframes ≤ 1024
    → page < s.npages
    → has_read (s.bits page) ≡ false
    → CanNote s
    → SomeTaken (skips_in s.algorithm s) s.core s.rands
    → Returns (λ _ t. Inv t.core × Served s page t) (page_fault_handler page s)
page_fault_handler-random s page alg inv few page_in absent room taken =
    rw (page_fault_handler-absent page s page_in absent) (
      load_page-random s page alg inv page_in absent room taken
        (scan_frames-Scanned s.nframes 0 (counted_fault s) (omega arith)))
