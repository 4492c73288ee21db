-- ===== src/VirtualMemory/Handler/Load.antt =====
-- The steps of page_fault_handler, each as an equation.
use c_coding_examples_operat.Common.{
  ℕ, zero, suc, ◌+◌, ◌*◌, ◌^◌, ltb, ◌≤◌, ◌<◌, ◌≡◌, ◌≢◌, refl, ◌==◌, if◌then◌else◌, update, Bool,
  true, false, Option, none, some, arith, lt→ltb, ge→ltb, Bool-cases, ℕ-cases, inl, inr,
}
use c_coding_examples_operat.Common.Run.{Run, ok, undefined, and_then}
use c_coding_examples_operat.VirtualMemory.Memory.{
  Algorithm, rand, fifo, custom, other, Vm, has_read, has_write,
}
use c_coding_examples_operat.VirtualMemory.PageTable.{
  page_table_set_entry, page_table_get_entry, disk_read, disk_write,
}
use c_coding_examples_operat.VirtualMemory.Handler.{
  counted_fault, scan_frames, push_fifo, push_custom, popped_custom, push_page, use_free,
  write_back, replace, load_page, page_fault_handler,
}
use c_coding_examples_operat.VirtualMemory.View.{place, evict}

abbrev pub is_fifo : Algorithm → Bool
is_fifo fifo = true
is_fifo _ = false

abbrev is_custom : Algorithm → Bool
is_custom custom = true
is_custom _ = false

-- The state once the algorithm has noted a page that comes in.
abbrev pub noted : Algorithm → ℕ → Vm → Vm
noted a page s = record s {
  fifo_cells = if is_fifo a then update s.fifo_cells s.push_index page else s.fifo_cells;
  push_index = if is_fifo a then s.push_index + 1 else s.push_index;
  custom_cells = if is_custom a then update s.custom_cells s.custom_push page else s.custom_cells;
  custom_push = if is_custom a then s.custom_push + 1 else s.custom_push;
  custom_pop = if is_custom a then popped_custom s else s.custom_pop;
}

-- The array of the algorithm has a cell left, from the two push indices.
abbrev pub Room : Algorithm → ℕ → ℕ → Type 0
Room rand i j = Unit {0}
Room fifo i j = i < 4096
Room custom i j = j < 4096
Room other i j = Unit {0}

abbrev pub CanNote : Vm → Type 0
CanNote s = Room s.algorithm s.push_index s.custom_push

push_page-noted :
    (a : Algorithm) (page : ℕ) (s : Vm)
    → Room a s.push_index s.custom_push
    → push_page a page s ≡ ok tt (noted a page s)
unfolding push_page push_fifo push_custom
push_page-noted rand page s h = refl
push_page-noted fifo page s h = rw (lt→ltb s.push_index 4096 h)
push_page-noted custom page s h = rw (lt→ltb s.custom_push 4096 h)
push_page-noted other page s h = refl

-- The state with page `page` in the free frame `i`.
abbrev pub loaded : Vm → ℕ → ℕ → Vm
loaded s page i = record (noted s.algorithm page s) {
  core = place (record (s.core) { phys_free = update s.phys_free i 1 }) page i;
  disk_reads = s.disk_reads + 1;
}

set_entry-ok :
    (page frame bits : ℕ) (s : Vm)
    → page < s.npages
    → frame < s.nframes
    → page_table_set_entry page frame bits s
      ≡ ok tt (record s {
        core = record (s.core) {
          mapping = update s.mapping page frame;
          bits = update s.bits page bits;
        };
      })
unfolding page_table_set_entry
set_entry-ok page frame bits s h k = rw (lt→ltb page s.npages h, lt→ltb frame s.nframes k)

disk_read-ok :
    (block frame : ℕ) (s : Vm)
    → block < s.npages
    → disk_read block frame s
      ≡ ok tt (record s { core = record (s.core) { phys = update s.phys frame (s.disk block) } })
unfolding disk_read
disk_read-ok block frame s h =
    let offset : ltb (block * 4096) (2 ^ 31) ≡ true = ground (arith, s.sized) in
    rw (lt→ltb block s.npages h, offset)

pub use_free-loaded :
    (page i : ℕ) (s : Vm)
    → page < s.npages
    → i < s.nframes
    → CanNote s
    → use_free page i s ≡ ok tt (loaded s page i)
unfolding use_free
use_free-loaded page i s h k c = rw (
  set_entry-ok page i 1 s h k,
  push_page-noted s.algorithm page entered c,
  disk_read-ok page i (noted s.algorithm page entered) h,
)
  where
    entered : Vm
    entered = record s {
      core = record (s.core) { mapping = update s.mapping page i; bits = update s.bits page 1 };
    }

-- The state with page `page` in the frame of page `v`.
abbrev pub replaced : Vm → ℕ → ℕ → Vm
replaced s page v = record (noted s.algorithm page s) {
  core = place (evict s.core v) page (s.mapping v);
  disk_reads = s.disk_reads + 1;
  disk_writes = if has_write (s.bits v) then s.disk_writes + 1 else s.disk_writes;
}

written_back : Vm → ℕ → Vm
written_back s v = record s {
  core = record (s.core) { disk = (evict s.core v).disk };
  disk_writes = if has_write (s.bits v) then s.disk_writes + 1 else s.disk_writes;
}

write_back-ok :
    (v : ℕ) (s : Vm)
    → v < s.npages
    → write_back v (s.mapping v) (s.bits v) s ≡ ok tt (written_back s v)
unfolding write_back disk_write written_back
write_back-ok v s h = ground arith

pub replace-replaced :
    (page v : ℕ) (s : Vm)
    → page < s.npages
    → v < s.npages
    → s.mapping v < s.nframes
    → CanNote s
    → replace page v (s.mapping v) (s.bits v) s ≡ ok tt (replaced s page v)
unfolding replace written_back
replace-replaced page v s h k l c = rw (
  write_back-ok v s k,
  set_entry-ok v 0 0 (written_back s v) k (omega arith),
  set_entry-ok page (s.mapping v) 1 gone h l,
  push_page-noted s.algorithm page entered c,
  disk_read-ok page (s.mapping v) (noted s.algorithm page entered) h,
)
  where
    gone : Vm
    gone = record (written_back s v) {
      core = record ((written_back s v).core) {
        mapping = update s.mapping v 0;
        bits = update s.bits v 0;
      };
    }

    entered : Vm
    entered = record gone {
      core = record (gone.core) {
        mapping = update gone.mapping page (s.mapping v);
        bits = update gone.bits page 1;
      };
    }

-- What the search for a free frame finds.
pub data Scanned (s : Vm) (i k : ℕ) : Run Vm (Option ℕ) → Type 0 where
  free : (j : ℕ) → j < i + k → s.phys_free j ≡ 0 → Scanned s i k (ok (some j) s)
  none_free : ((j : ℕ) → i ≤ j → j < i + k → s.phys_free j ≢ 0) → Scanned s i k (ok none s)

pub scan_frames-Scanned : (k i : ℕ) (s : Vm) → i + k ≤ 1024 → Scanned s i k (scan_frames k i s)
unfolding scan_frames
scan_frames-Scanned zero i s h = none_free (λ j a b. absurd (omega arith))
scan_frames-Scanned (suc k) i s h =
    rw (lt→ltb i 1024 (omega arith)) (elim (Bool-cases (s.phys_free i == 0)) [
      | inl hit ↦ rw hit (free i (omega arith) (ground arith))
      | inr miss ↦
          rw miss (later i k s (ground arith) (scan_frames-Scanned k (i + 1) s (omega arith)))
    ])
  where
    later :
        (i k : ℕ) (s : Vm) {r : Run Vm (Option ℕ)}
        → s.phys_free i ≢ 0
        → Scanned s (i + 1) k r
        → Scanned s i (suc k) r
    later i k s ne (free j a b) = free j (omega arith) b
    later i k s ne (none_free all) = none_free (λ j a b. elim (ℕ-cases j i) [
      | inl same ↦ rw same ne
      | inr later_one ↦ all j (omega arith) (omega arith)
    ])

-- A fault at a page that cannot be read.
pub page_fault_handler-absent :
    (page : ℕ) (s : Vm)
    → page < s.npages
    → has_read (s.bits page) ≡ false
    → page_fault_handler page s
      ≡ and_then (scan_frames s.nframes 0 (counted_fault s)) (load_page page)
unfolding page_fault_handler page_table_get_entry
page_fault_handler-absent page s h a = rw (lt→ltb page s.npages h, a)

push_page-full :
    (a : Algorithm) (page : ℕ) (s : Vm)
    → is_fifo a ≡ true
    → 4096 ≤ s.push_index
    → push_page a page s ≡ undefined
unfolding push_page push_fifo
push_page-full rand page s e h = cc
push_page-full fifo page s e h = rw (ge→ltb s.push_index 4096 h)
push_page-full custom page s e h = cc
push_page-full other page s e h = cc

module _ (page : ℕ) (s : Vm) (page_in : page < s.npages) (alg : is_fifo s.algorithm ≡ true)
    (full : 4096 ≤ s.push_index) where
  -- The two ways to bring a page in, with FIFO full.
  pub use_free-full : (i : ℕ) → i < s.nframes → use_free page i s ≡ undefined
  unfolding use_free
  use_free-full i k =
      rw (set_entry-ok page i 1 s page_in k, push_page-full s.algorithm page entered alg full)
    where
      entered : Vm
      entered = record s {
        core = record (s.core) { mapping = update s.mapping page i; bits = update s.bits page 1 };
      }

  pub replace-full :
      (v : ℕ)
      → v < s.npages
      → s.mapping v < s.nframes
      → replace page v (s.mapping v) (s.bits v) s ≡ undefined
  unfolding replace written_back
  replace-full v k l = rw (
    write_back-ok v s k,
    set_entry-ok v 0 0 (written_back s v) k (omega arith),
    set_entry-ok page (s.mapping v) 1 gone page_in l,
    push_page-full s.algorithm page entered alg full,
  )
    where
      gone : Vm
      gone = record (written_back s v) {
        core = record ((written_back s v).core) {
          mapping = update s.mapping v 0;
          bits = update s.bits v 0;
        };
      }

      entered : Vm
      entered = record gone {
        core = record (gone.core) {
          mapping = update gone.mapping page (s.mapping v);
          bits = update gone.bits page 1;
        };
      }
