-- ===== src/VirtualMemory/Handler/Fifo.antt =====
-- The handler with the algorithm "fifo".
use c_coding_examples_operat.Common.{
  ℕ, zero, suc, ◌+◌, ◌≤◌, ◌<◌, ◌≡◌, ◌≢◌, refl, ◌==◌, if◌then◌else◌, update, true, false, Option,
  arith, lt→ltb,
}
use c_coding_examples_operat.Common.Run.{Run, ok, and_then, Returns, returns}
use c_coding_examples_operat.VirtualMemory.Memory.{
  Algorithm, rand, fifo, custom, other, Vm, has_read,
}
use c_coding_examples_operat.VirtualMemory.PageTable.{page_table_get_entry}
use c_coding_examples_operat.VirtualMemory.Handler.{
  counted_fault, pop_fifo, pick_fifo, pick, load_page, page_fault_handler,
}
use c_coding_examples_operat.VirtualMemory.Handler.Load.{
  is_fifo, Room, loaded, replaced, use_free-loaded, replace-replaced, Scanned, free, none_free,
  scan_frames-Scanned, page_fault_handler-absent,
}
use c_coding_examples_operat.VirtualMemory.View.{
  Resident, view, Inv, comes_in-Inv, view-comes_in, takes_over-Inv, view-takes_over,
}

-- the frames below `n` that PHYS_FREE marks as taken
abbrev pub count_used : (ℕ → ℕ) → ℕ → ℕ
count_used f zero = 0
count_used f (suc n) = (if f n == 0 then 0 else 1) + count_used f n

count_used-update_above :
    (f : ℕ → ℕ) (n i : ℕ) → n ≤ i → count_used (update f i 1) n ≡ count_used f n
count_used-update_above f zero i h = refl
count_used-update_above f (suc n) i h = ground (arith, count_used-update_above f n i)

count_used-update :
    (f : ℕ → ℕ) (n i : ℕ) → i < n → f i ≡ 0 → count_used (update f i 1) n ≡ count_used f n + 1
count_used-update f zero i h e = absurd (omega arith)
count_used-update f (suc n) i h e =
    ground (arith, count_used-update f n i, count_used-update_above f n i)

pub count_used_all : (f : ℕ → ℕ) (n : ℕ) → ((i : ℕ) → i < n → f i ≢ 0) → count_used f n ≡ n
count_used_all f zero h = refl
count_used_all f (suc n) h =
    ground (arith, count_used_all f n (λ i l. h i (omega arith)), h n (omega arith))

-- FIFO from POP_INDEX to PUSH_INDEX lists pages in memory, each once, and as many as frames are
-- taken.
pub record FifoInv (s : Vm) : Type 0 where
  pub inv : Inv s.core
  pub algorithm : is_fifo s.algorithm ≡ true
  pub some_frames : 0 < s.nframes
  pub few_frames : s.nframes ≤ 1024
  pub order : s.pop_index ≤ s.push_index
  pub entries : (k : ℕ) → s.pop_index ≤ k → k < s.push_index → Resident s.core (s.fifo_cells k)
  pub once :
      (k l : ℕ)
      → s.pop_index ≤ k
      → k < s.push_index
      → s.pop_index ≤ l
      → l < s.push_index
      → s.fifo_cells k ≡ s.fifo_cells l
      → k ≡ l
  pub balance : count_used s.phys_free s.nframes + s.pop_index ≡ s.push_index

-- A fault at `page` has been served: the page can be read, and no page has changed.
pub record Served (s : Vm) (page : ℕ) (t : Vm) : Type 0 where
  pub readable : Resident t.core page
  pub same_view : (q : ℕ) → view t.core q ≡ view s.core q
  pub one_fault : t.page_faults ≡ s.page_faults + 1
  pub one_read : t.disk_reads ≡ s.disk_reads + 1
  pub same_range : t.npages ≡ s.npages

Room-fifo : (a : Algorithm) (i j : ℕ) → is_fifo a ≡ true → i < 4096 → Room a i j
Room-fifo rand i j e h = tt
Room-fifo fifo i j e h = h
Room-fifo custom i j e h = cc
Room-fifo other i j e h = tt

pub pick-fifo : (a : Algorithm) → is_fifo a ≡ true → pick a ≡ pick_fifo
unfolding pick
pick-fifo rand e = cc
pick-fifo fifo e = refl
pick-fifo custom e = cc
pick-fifo other e = cc

module _ (s : Vm) (f : FifoInv s) (page : ℕ) (page_in : page < s.npages)
    (absent : has_read (s.bits page) ≡ false) where
  loaded-FifoInv : (i : ℕ) → i < s.nframes → s.phys_free i ≡ 0 → FifoInv (loaded s page i)
  loaded-FifoInv i l z = record {
    inv = comes_in-Inv s.core f.inv page page_in absent i l z;
    algorithm = f.algorithm;
    some_frames = f.some_frames;
    few_frames = f.few_frames;
    order = ground (arith, f.algorithm, f.order);
    entries = λ k a b. ground (arith, f.algorithm, f.entries k);
    once = λ k m a b c d e. ground (arith, f.algorithm, f.once k m, f.entries k, f.entries m);
    balance = ground (arith, f.algorithm, f.balance, count_used-update s.phys_free s.nframes i);
  }

  loaded-Served :
      (i : ℕ) → i < s.nframes → s.phys_free i ≡ 0 → Served s page (loaded (counted_fault s) page i)
  loaded-Served i l z = record {
    readable = ground arith;
    same_view = view-comes_in s.core f.inv page page_in absent i l z;
    one_fault = refl;
    one_read = refl;
    same_range = refl;
  }

  abbrev pub popped : Vm
  popped = record s { pop_index = s.pop_index + 1 }

  abbrev pub oldest : ℕ
  oldest = s.fifo_cells s.pop_index

  module _ (waiting : s.pop_index < s.push_index) where
    oldest-Resident : Resident s.core oldest
    oldest-Resident = f.entries s.pop_index (omega arith) waiting

    replaced-FifoInv : FifoInv (replaced popped page oldest)
    replaced-FifoInv = record {
      inv = takes_over-Inv s.core f.inv page page_in absent oldest oldest-Resident;
      algorithm = f.algorithm;
      some_frames = f.some_frames;
      few_frames = f.few_frames;
      order = ground (arith, f.algorithm, f.order);
      entries =
          λ k a b. ground (arith, f.algorithm, f.entries k, f.once k s.pop_index, oldest-Resident);
      once = λ k m a b c d e. ground (arith, f.algorithm, f.once k m, f.entries k, f.entries m);
      balance = ground (arith, f.algorithm, f.balance);
    }

    pub pick_fifo-oldest :
        s.pop_index < 4096 → pick_fifo s ≡ ok (oldest, s.mapping oldest, s.bits oldest) popped
    pick_fifo-oldest h =
        unfold pick_fifo pop_fifo page_table_get_entry in
        rw (
          lt→ltb s.pop_index 4096 h,
          lt→ltb oldest s.npages (f.inv.in_range oldest oldest-Resident),
        )

pub counted-FifoInv : (s : Vm) → FifoInv s → FifoInv (counted_fault s)
counted-FifoInv s f = record {
  inv = f.inv;
  algorithm = f.algorithm;
  some_frames = f.some_frames;
  few_frames = f.few_frames;
  order = f.order;
  entries = f.entries;
  once = f.once;
  balance = f.balance;
}

-- When the handler returns, the invariant holds again and the fault has been served.
abbrev pub FifoPost : Vm → ℕ → Unit {0} → Vm → Type 0
FifoPost s page _ t = FifoInv t × Served s page t × (t.push_index ≤ s.push_index + 1)

load_page-fifo :
    (s : Vm) (page : ℕ) {r : Run Vm (Option ℕ)}
    → FifoInv s
    → page < s.npages
    → has_read (s.bits page) ≡ false
    → s.push_index < 4096
    → Scanned (counted_fault s) 0 s.nframes r
    → Returns (FifoPost s page) (and_then r (load_page page))
unfolding load_page
load_page-fifo s page f page_in absent cell (free i l z) =
    rw
      (use_free-loaded page i (counted_fault s) page_in (omega arith)
        (Room-fifo s.algorithm s.push_index s.custom_push f.algorithm cell))
      (returns (
        loaded-FifoInv (counted_fault s) (counted-FifoInv s f) page page_in absent i (omega arith)
            z,
        loaded-Served s f page page_in absent i (omega arith) z,
        ground arith,
      ))
load_page-fifo s page f page_in absent cell (none_free all) =
    rw
      (
        pick-fifo s.algorithm f.algorithm,
        pick_fifo-oldest c c-inv page page_in absent waiting (omega arith),
        replace-replaced page old (record c { pop_index = c.pop_index + 1 }) page_in
            (f.inv.in_range old here) (f.inv.frame_in old here)
            (Room-fifo s.algorithm s.push_index s.custom_push f.algorithm cell),
      )
      (returns (
        replaced-FifoInv c c-inv page page_in absent waiting,
        record {
          readable = ground arith;
          same_view = view-takes_over s.core f.inv page page_in absent old here;
          one_fault = refl;
          one_read = refl;
          same_range = refl;
        },
        ground arith,
      ))
  where
    c : Vm
    c = counted_fault s

    c-inv : FifoInv c
    c-inv = counted-FifoInv s f

    old : ℕ
    old = s.fifo_cells s.pop_index

    waiting : s.pop_index < s.push_index
    waiting = omega (
      arith,
      f.balance,
      f.some_frames,
      count_used_all s.phys_free s.nframes (λ i l. all i (omega arith) (omega arith)),
    )

    here : Resident s.core old
    here = f.entries s.pop_index (omega arith) waiting

-- With the algorithm "fifo", up to 1024 frames and a cell left in FIFO, the handler returns from a
-- fault at a page that is not in memory. The page can then be read, the content of every page of
-- the virtual memory is as it was, one fault and one read of the disk are counted, and the
-- invariant of the page table and of FIFO holds again. FIFO has grown by one cell at most.
pub page_fault_handler-fifo :
    (s : Vm) (page : ℕ)
    → FifoInv s
    → page < s.npages
    → has_read (s.bits page) ≡ false
    → s.push_index < 4096
    → Returns (FifoPost s page) (page_fault_handler page s)
page_fault_handler-fifo s page f page_in absent cell =
    rw (page_fault_handler-absent page s page_in absent) (
      load_page-fifo s page f page_in absent cell
        (scan_frames-Scanned s.nframes 0 (counted_fault s) (omega (arith, f.few_frames))))
