-- ===== src/VirtualMemory/Handler.antt =====
-- page_fault_handler of "05. Virtual Memory/main.c".
pub mod Load
pub mod Fifo
pub mod Random
pub mod Overflow
use c_coding_examples_operat.Common.{
  ℕ, zero, suc, ◌+◌, ◌*◌, ◌/◌, ◌%◌, ◌==◌, ltb, leb, if◌then◌else◌, update, Bool, true, false,
  Option, none, some, List, [], ◌∷◌, ◌-◌, not, ◌&&◌, ◌||◌,
}
use c_coding_examples_operat.Common.Run.{
  Run, ok, aborted, undefined, out_of_fuel, M, pure, and_then, ◌>>=◌, ◌>>◌,
}
use c_coding_examples_operat.VirtualMemory.Memory.{
  Page, Core, Algorithm, rand, fifo, custom, other, Vm, has_read, has_write,
}
use c_coding_examples_operat.VirtualMemory.PageTable.{
  page_table_set_entry, page_table_get_entry, disk_read, disk_write,
}

abbrev pub counted_fault : Vm → Vm
counted_fault s = record s { page_faults = s.page_faults + 1 }

abbrev pub counted_disk_read : Vm → Vm
counted_disk_read s = record s { disk_reads = s.disk_reads + 1 }

abbrev pub counted_disk_write : Vm → Vm
counted_disk_write s = record s { disk_writes = s.disk_writes + 1 }

abbrev pub modify : (Vm → Vm) → M Vm (Unit {0})
modify f s = ok tt (f s)

-- PHYS_FREE has 1024 cells.
abbrev pub get_phys_free : ℕ → M Vm ℕ
get_phys_free i s = if ltb i 1024 then ok (s.phys_free i) s else undefined

-- The search for a free frame: the rounds left, and `i`.
unfoldable pub scan_frames : ℕ → ℕ → M Vm (Option ℕ)
scan_frames zero i = pure none
scan_frames (suc k) i = do
  v ← get_phys_free i
  if v == 0 then pure (some i) else scan_frames k (i + 1)

-- `FIFO[PUSH_INDEX] = page; PUSH_INDEX += 1`; FIFO has 4096 cells.
unfoldable pub push_fifo : ℕ → M Vm (Unit {0})
push_fifo page s =
    if ltb s.push_index 4096
    then ok tt (record s {
      fifo_cells = update s.fifo_cells s.push_index page;
      push_index = s.push_index + 1;
    })
    else undefined

-- `if (CUSTOM_PUSH-CUSTOM_POP == nframes/BUFFSIZE) CUSTOM_POP++`
abbrev pub popped_custom : Vm → ℕ
popped_custom s =
    if s.custom_push + 1 == s.custom_pop + s.nframes / s.buffsize
    then s.custom_pop + 1
    else s.custom_pop

-- `CUSTOM[CUSTOM_PUSH] = page; CUSTOM_PUSH++`, and the test; CUSTOM has 4096 cells.
unfoldable pub push_custom : ℕ → M Vm (Unit {0})
push_custom page s =
    if ltb s.custom_push 4096
    then ok tt (record s {
      custom_cells = update s.custom_cells s.custom_push page;
      custom_push = s.custom_push + 1;
      custom_pop = popped_custom s;
    })
    else undefined

-- What the algorithm notes of a page that comes in.
unfoldable pub push_page : Algorithm → ℕ → M Vm (Unit {0})
push_page rand page = pure tt
push_page fifo page = push_fifo page
push_page custom page = push_custom page
push_page other page = pure tt

-- A page comes into the free frame `i`.
unfoldable pub use_free : ℕ → ℕ → M Vm (Unit {0})
use_free page i = do
  page_table_set_entry page i 1
  λ s. push_page s.algorithm page s
  disk_read page i
  modify (λ s. record s { core = record (s.core) { phys_free = update s.phys_free i 1 } })
  modify counted_disk_read

-- `if (prev_bits&PROT_WRITE)`: a page that was written goes back to the disk.
unfoldable pub write_back : ℕ → ℕ → ℕ → M Vm (Unit {0})
write_back page_num frame_num prev_bits =
    if has_write prev_bits
    then (do disk_write page_num frame_num; modify counted_disk_write)
    else pure tt

-- Page `page` takes the frame of page `page_num`.
unfoldable pub replace : ℕ → ℕ → ℕ → ℕ → M Vm (Unit {0})
replace page page_num frame_num prev_bits = do
  write_back page_num frame_num prev_bits
  page_table_set_entry page_num 0 0
  page_table_set_entry page frame_num 1
  λ s. push_page s.algorithm page s
  disk_read page frame_num
  modify counted_disk_read

abbrev pub with_rands : Vm → List ℕ → Vm
with_rands s rs = record s { rands = rs }

-- A page number that rand() gives is taken if the page is in memory, and not skipped. The loop
-- runs until one is taken; it is cut off where the given random numbers end.
unfoldable pub pick_random : (Vm → ℕ → Bool) → List ℕ → M Vm (ℕ × ℕ × ℕ)
pick_random skip [] = λ _. out_of_fuel
pick_random skip (r ∷ rs) = λ s.
    and_then (page_table_get_entry (r % s.npages) s) λ (frame_num, prev_bits) t.
      if not (skip t (r % s.npages)) && has_read prev_bits
      then ok (r % s.npages, frame_num, prev_bits) (with_rands t rs)
      else pick_random skip rs t

-- `page_num == CUSTOM[i]` for some `i`: the rounds left, and `i`
unfoldable pub is_recent : (ℕ → ℕ) → ℕ → ℕ → ℕ → Bool
is_recent cells zero i page_num = false
is_recent cells (suc k) i page_num = page_num == cells i || is_recent cells k (i + 1) page_num

-- from CUSTOM_POP to CUSTOM_PUSH, both included
abbrev pub skip_recent : Vm → ℕ → Bool
skip_recent s page_num =
    is_recent s.custom_cells (s.custom_push + 1 - s.custom_pop) s.custom_pop page_num

-- `page_num = FIFO[POP_INDEX]; POP_INDEX += 1`
unfoldable pub pop_fifo : M Vm ℕ
pop_fifo s =
    if ltb s.pop_index 4096
    then ok (s.fifo_cells s.pop_index) (record s { pop_index = s.pop_index + 1 })
    else undefined

unfoldable pub pick_fifo : M Vm (ℕ × ℕ × ℕ)
pick_fifo = do
  page_num ← pop_fifo
  (frame_num, prev_bits) ← page_table_get_entry page_num
  pure (page_num, frame_num, prev_bits)

-- The page that has to go, with its entry. No page is taken before CUSTOM has been read up to
-- CUSTOM_PUSH, so the array has to have that cell. An unknown algorithm ends the program.
unfoldable pub pick : Algorithm → M Vm (ℕ × ℕ × ℕ)
pick rand = λ s. pick_random (λ _ _. false) s.rands s
pick fifo = pick_fifo
pick custom = λ s. if ltb s.custom_push 4096 then pick_random skip_recent s.rands s else undefined
pick other = λ _. aborted

unfoldable pub load_page : ℕ → Option ℕ → M Vm (Unit {0})
load_page page (some i) = use_free page i
load_page page none = do
  (page_num, frame_num, prev_bits) ← λ s. pick s.algorithm s
  replace page page_num frame_num prev_bits

-- A page that can be read and not written becomes writable.
unfoldable pub upgrade : ℕ → ℕ → ℕ → M Vm (Unit {0})
upgrade page frame bits =
    if has_write bits then pure tt else do modify counted_fault; page_table_set_entry page frame 3

unfoldable pub page_fault_handler : ℕ → M Vm (Unit {0})
page_fault_handler page = do
  (frame, bits) ← page_table_get_entry page
  if has_read bits
      then upgrade page frame bits
      else do modify counted_fault; o ← λ s. scan_frames s.nframes 0 s; load_page page o
