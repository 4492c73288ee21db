-- ===== src/VirtualMemory/PageTable.antt =====
-- "05. Virtual Memory/page_table.c" and disk.c. Page and frame numbers are never negative: they
-- come from a fault address that internal_fault_handler has checked, or from these tables.
use c_coding_examples_operat.Common.{ℕ, ◌*◌, ◌^◌, ltb, Bool, if◌then◌else◌, update}
use c_coding_examples_operat.Common.Run.{ok, aborted, undefined, M}
use c_coding_examples_operat.VirtualMemory.Memory.{Vm}

-- page_table_set_entry: remap_file_pages and mprotect make the mapping and the bits effective.
unfoldable pub page_table_set_entry : ℕ → ℕ → ℕ → M Vm (Unit {0})
page_table_set_entry page frame bits s =
    if ltb page s.npages
    then if ltb frame s.nframes
      then ok tt (record s {
        core = record (s.core) {
          mapping = update s.mapping page frame;
          bits = update s.bits page bits;
        };
      })
      else aborted
    else aborted

unfoldable pub page_table_get_entry : ℕ → M Vm (ℕ × ℕ)
page_table_get_entry page s =
    if ltb page s.npages then ok (s.mapping page, s.bits page) s else aborted

-- block*block_size is in the range of an int.
abbrev pub is_offset : ℕ → Bool
is_offset block = ltb (block * 4096) (2 ^ 31)

-- disk_read(disk, block, physmem + frame * PAGE_SIZE). The disk has `npages` blocks, and pread and
-- pwrite of a block inside it transfer the whole block.
unfoldable pub disk_read : ℕ → ℕ → M Vm (Unit {0})
disk_read block frame s =
    if ltb block s.npages
    then if is_offset block
      then ok tt (record s { core = record (s.core) { phys = update s.phys frame (s.disk block) } })
      else undefined
    else aborted

unfoldable pub disk_write : ℕ → ℕ → M Vm (Unit {0})
disk_write block frame s =
    if ltb block s.npages
    then if is_offset block
      then ok tt (record s { core = record (s.core) { disk = update s.disk block (s.phys frame) } })
      else undefined
    else aborted
