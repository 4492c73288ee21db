-- ===== src/VirtualMemory/Memory.antt =====
-- The state of "05. Virtual Memory": main.c, page_table.c and disk.c.
use c_coding_examples_operat.Common.{ℕ, ◌%◌, ◌/◌, ◌^◌, ◌==◌, ◌≡◌, ltb, Bool, true, List}

-- 4096 bytes
abbrev pub Page : Type 0
Page = ℕ → ℕ

-- What decides the content of the virtual memory: `pt->page_mapping`, `pt->page_bits`, the file
-- behind the disk, the physical memory by frames, and PHYS_FREE. With 2^19 pages or more,
-- page_table_create multiplies beyond the range of an int: no program comes to such a state.
pub record Core : Type 0 where
  pub npages : ℕ
  pub sized : ltb npages (2 ^ 19) ≡ true
  pub nframes : ℕ
  pub mapping : ℕ → ℕ
  pub bits : ℕ → ℕ
  pub disk : ℕ → Page
  pub phys : ℕ → Page
  pub phys_free : ℕ → ℕ

-- `replacement_alg`, as the comparisons with "rand", "fifo" and "custom" tell it
pub data Algorithm : Type 0 where
  rand fifo custom other : Algorithm

-- The other static variables of main.c. `rands` are the values that rand() is going to return.
pub record Vm : Type 0 where
  pub core : Core
  pub open core use *
  pub algorithm : Algorithm
  pub buffsize : ℕ
  pub fifo_cells : ℕ → ℕ
  pub pop_index : ℕ
  pub push_index : ℕ
  pub custom_cells : ℕ → ℕ
  pub custom_pop : ℕ
  pub custom_push : ℕ
  pub page_faults : ℕ
  pub disk_reads : ℕ
  pub disk_writes : ℕ
  pub rands : List ℕ

-- `bits & PROT_READ` and `bits & PROT_WRITE`
abbrev pub has_read : ℕ → Bool
has_read b = b % 2 == 1

abbrev pub has_write : ℕ → Bool
has_write b = b / 2 % 2 == 1
