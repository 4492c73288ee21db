-- ===== src/VirtualMemory/Start.antt =====
-- main of "05. Virtual Memory/main.c" up to the start of the program, with page_table_create.
use c_coding_examples_operat.Common.{
  ℕ, zero, suc, ◌≤◌, ◌<◌, ◌^◌, ◌≡◌, refl, ltb, if◌then◌else◌, Bool, true, false, lt→ltb, ◌||◌, List,
  arith,
}
use c_coding_examples_operat.Common.Run.{Run, ok, aborted, undefined, Returns, returns}
use c_coding_examples_operat.VirtualMemory.Memory.{Page, Core, Algorithm, fifo, Vm}
use c_coding_examples_operat.VirtualMemory.View.{view}
use c_coding_examples_operat.VirtualMemory.Handler.Fifo.{FifoInv, count_used}

-- What main finds when it starts: the content of the file behind the disk, the memory that malloc
-- and mmap give, the values of rand(), and PHYS_FREE, which holds zeros.
pub record Found : Type 0 where
  pub disk : ℕ → Page
  pub mapping : ℕ → ℕ
  pub phys : ℕ → Page
  pub rands : List ℕ

-- page_table_create clears the bits of each page, and leaves the mapping as malloc gave it.
abbrev pub page_table_create : Found → (npages : ℕ) → ltb npages (2 ^ 19) ≡ true → ℕ → Core
page_table_create e npages sized nframes = record {
  npages = npages;
  sized = sized;
  nframes = nframes;
  mapping = e.mapping;
  bits = λ _. 0;
  disk = e.disk;
  phys = e.phys;
  phys_free = λ _. 0;
}

-- Behind the tests of main: PHYS_FREE has 1024 cells, and the loop that clears it runs to `nframes`.
-- npages*PAGE_SIZE is an int. The files and the memory are taken to be there.
abbrev pub start_program :
    Found
    → Algorithm
    → (npages nframes : ℕ) (small : Bool) → ltb npages (2 ^ 19) ≡ small
    → Run Vm (Unit {0})
start_program e a npages nframes false large = undefined
start_program e a npages nframes true sized =
    if ltb 1024 nframes
    then undefined
    else ok tt (record {
      core = page_table_create e npages sized nframes;
      algorithm = a;
      buffsize = if ltb nframes 10 then 3 else 10;
      fifo_cells = λ _. 0;
      pop_index = 0;
      push_index = 0;
      custom_cells = λ _. 0;
      custom_pop = 0;
      custom_push = 0;
      page_faults = 0;
      disk_reads = 0;
      disk_writes = 0;
      rands = e.rands;
    })

-- Numbers from the command line that are negative fail as 0 does.
unfoldable pub start : Found → Algorithm → ℕ → ℕ → Run Vm (Unit {0})
start e a npages nframes =
    if ltb npages 3 || ltb nframes 3
    then aborted
    else if ltb npages nframes
    then aborted
    else start_program e a npages nframes (ltb npages (2 ^ 19)) refl

count_used_none : (n : ℕ) → count_used (λ _. 0) n ≡ 0
count_used_none zero = refl
count_used_none (suc n) = omega (arith, count_used_none n)

pub record Started (e : Found) (n : ℕ) (s : Vm) : Type 0 where
  pub invariant : FifoInv s
  pub content : view s.core ≡ e.disk
  pub pages : s.npages ≡ n
  pub empty : s.push_index ≡ 0

start_program-Started :
    (e : Found) (npages nframes : ℕ) (small : Bool) (sized : ltb npages (2 ^ 19) ≡ small)
    → 3 ≤ nframes
    → nframes ≤ npages
    → nframes ≤ 1024
    → small ≡ true
    → Returns (λ _ s. Started e npages s) (start_program e fifo npages nframes small sized)
start_program-Started e npages nframes false sized h k l t = cc
start_program-Started e npages nframes true sized h k l t =
    let c : ltb 1024 nframes ≡ false = ground arith in
    rw c (
      returns (record {
        invariant = record {
          inv = record {
            in_range = λ p r. ground arith;
            frame_in = λ p r. ground arith;
            distinct = λ p q r t d. ground arith;
            clean = λ p r w. ground arith;
            occupied = λ p r. ground arith;
          };
          algorithm = refl;
          some_frames = omega arith;
          few_frames = l;
          order = omega arith;
          entries = λ i x y. absurd (omega arith);
          once = λ i j x y z w d. absurd (omega arith);
          balance = omega (arith, count_used_none nframes);
        };
        content = refl;
        pages = refl;
        empty = refl;
      }))

-- With 3 to 1024 frames, at least as many pages, less than 2^19 of them, and the algorithm "fifo", the
-- program starts with the invariant of the handler, with FIFO empty, and the virtual memory has the
-- content of the disk.
pub start-Started :
    (e : Found) (npages nframes : ℕ)
    → 3 ≤ nframes
    → nframes ≤ npages
    → nframes ≤ 1024
    → npages < 2 ^ 19
    → Returns (λ _ s. Started e npages s) (start e fifo npages nframes)
unfolding start
start-Started e npages nframes h k l m =
    let a : (ltb npages 3 || ltb nframes 3) ≡ false = ground arith in
    let b : ltb npages nframes ≡ false = ground arith in
    rw (a, b)
      (start_program-Started e npages nframes (ltb npages (2 ^ 19)) refl h k l
        (lt→ltb npages (2 ^ 19) m))
