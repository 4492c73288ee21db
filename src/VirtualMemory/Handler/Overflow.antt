-- ===== src/VirtualMemory/Handler/Overflow.antt =====
-- page_fault_handler of "05. Virtual Memory/main.c" at the end of the array FIFO, whose indices
-- only grow.
use c_coding_examples_operat.Common.{ℕ, ◌+◌, ◌<◌, ◌≡◌, false, arith, Option}
use c_coding_examples_operat.Common.Run.{Run, undefined, and_then}
use c_coding_examples_operat.VirtualMemory.Memory.{Vm, has_read}
use c_coding_examples_operat.VirtualMemory.Handler.{counted_fault, load_page, page_fault_handler}
use c_coding_examples_operat.VirtualMemory.Handler.Load.{
  use_free-full, replace-full, Scanned, free, none_free, scan_frames-Scanned,
  page_fault_handler-absent,
}
use c_coding_examples_operat.VirtualMemory.Handler.Fifo.{
  FifoInv, count_used_all, counted-FifoInv, pick-fifo, pick_fifo-oldest,
}
use c_coding_examples_operat.VirtualMemory.View.{Resident}

load_page-full :
    (s : Vm) (page : ℕ) {r : Run Vm (Option ℕ)}
    → FifoInv s
    → page < s.npages
    → has_read (s.bits page) ≡ false
    → s.push_index ≡ 4096
    → Scanned (counted_fault s) 0 s.nframes r
    → and_then r (load_page page) ≡ undefined
unfolding load_page
load_page-full s page f h absent full (free i l z) =
    use_free-full page (counted_fault s) h f.algorithm (omega arith) i (omega arith)
load_page-full s page f h absent full (none_free all) =
    rw
      (
        pick-fifo s.algorithm f.algorithm,
        pick_fifo-oldest c (counted-FifoInv s f) page h absent waiting
            (omega (arith, waiting, full)),
      )
      (replace-full page (record c { pop_index = c.pop_index + 1 }) h f.algorithm (omega arith) old
        (f.inv.in_range old here) (f.inv.frame_in old here))
  where
    c : Vm
    c = counted_fault s

    old : ℕ
    old = s.fifo_cells s.pop_index

    waiting : s.pop_index < s.push_index
    waiting = omega (
      arith,
      f.balance,
      f.some_frames,
      count_used_all s.phys_free s.nframes (λ i l. all i (omega arith) (omega arith)),
    )

    here : Resident s.core old
    here = f.entries s.pop_index (omega arith) waiting

-- With the algorithm "fifo" and its invariant, once 4096 pages have come in, the next fault at a
-- page of the virtual memory that is not in memory writes behind the end of FIFO.
pub page_fault_handler-full :
    (s : Vm) (page : ℕ)
    → FifoInv s
    → page < s.npages
    → has_read (s.bits page) ≡ false
    → s.push_index ≡ 4096
    → page_fault_handler page s ≡ undefined
page_fault_handler-full s page f h absent full = rw (page_fault_handler-absent page s h absent) (
    load_page-full s page f h absent full
      (scan_frames-Scanned s.nframes 0 (counted_fault s) (omega (arith, f.few_frames))))
