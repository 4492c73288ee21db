-- ===== src/VirtualMemory/Tests.antt =====
-- A machine with four pages and three frames, and the theorems at it.
use c_coding_examples_operat.Common.{
  ℕ, ◌+◌, ◌≡◌, refl, ◌==◌, if◌then◌else◌, arith, List, [], ◌∷◌, inl, inr,
}
use c_coding_examples_operat.Common.Run.{undefined, Returns}
use c_coding_examples_operat.VirtualMemory.Memory.{Core, Algorithm, rand, fifo, Vm}
use c_coding_examples_operat.VirtualMemory.View.{view, Inv}
use c_coding_examples_operat.VirtualMemory.Handler.{page_fault_handler}
use c_coding_examples_operat.VirtualMemory.Handler.Fifo.{
  FifoInv, FifoPost, Served, page_fault_handler-fifo,
}
use c_coding_examples_operat.VirtualMemory.Handler.Random.{page_fault_handler-random}
use c_coding_examples_operat.VirtualMemory.Handler.Overflow.{page_fault_handler-full}
use c_coding_examples_operat.VirtualMemory.Access.{Op, get, put, run}
use c_coding_examples_operat.VirtualMemory.Access.Refine.{array_values, array_run, run_refines}
use c_coding_examples_operat.VirtualMemory.Start.{Found, Started, start, start-Started}

abbrev found : Found
found = record { disk = λ p _. p; mapping = λ _. 0; phys = λ _ _. 0; rands = [] }

-- Page 0 is in frame 0, for reading.
abbrev core_0 : Core
core_0 = record {
  npages = 4;
  sized = refl;
  nframes = 3;
  mapping = λ _. 0;
  bits = λ p. if p == 0 then 1 else 0;
  disk = λ p _. p;
  phys = λ _ _. 0;
  phys_free = λ i. if i == 0 then 1 else 0;
}

abbrev machine : Algorithm → List ℕ → ℕ → Vm
machine a rs n = record {
  core = core_0;
  algorithm = a;
  buffsize = 3;
  fifo_cells = λ _. 0;
  pop_index = n;
  push_index = n + 1;
  custom_cells = λ _. 0;
  custom_pop = 0;
  custom_push = 0;
  page_faults = 1;
  disk_reads = 1;
  disk_writes = 0;
  rands = rs;
}

core_0-Inv : Inv core_0
core_0-Inv = record {
  in_range = λ p r. ground arith;
  frame_in = λ p r. ground arith;
  distinct = λ p q r t d. ground arith;
  clean = λ p r w. ground arith;
  occupied = λ p r. ground arith;
}

machine-FifoInv : (n : ℕ) → FifoInv (machine fifo [] n)
machine-FifoInv n = record {
  inv = core_0-Inv;
  algorithm = refl;
  some_frames = omega arith;
  few_frames = omega arith;
  order = omega arith;
  entries = λ k a b. refl;
  once = λ k l a b c d e. omega arith;
  balance = omega arith;
}

page_fault_handler-fifo_example :
    Returns (FifoPost (machine fifo [] 0) 2) (page_fault_handler 2 (machine fifo [] 0))
page_fault_handler-fifo_example =
    page_fault_handler-fifo (machine fifo [] 0) 2 (machine-FifoInv 0) (omega arith) refl
      (omega arith)

-- rand() returns 7, and page 3 is not in memory; it returns 8, and page 0 is.
page_fault_handler-random_example :
    Returns
      (λ _ t. Inv t.core × Served (machine rand (7 ∷ 8 ∷ []) 0) 2 t)
      (page_fault_handler 2 (machine rand (7 ∷ 8 ∷ []) 0))
page_fault_handler-random_example =
    page_fault_handler-random (machine rand (7 ∷ 8 ∷ []) 0) 2 refl core_0-Inv (omega arith)
      (omega arith) refl tt (inr (inl refl))

page_fault_handler-full_example : page_fault_handler 2 (machine fifo [] 4095) ≡ undefined
page_fault_handler-full_example =
    page_fault_handler-full (machine fifo [] 4095) 2 (machine-FifoInv 4095) (omega arith) refl refl

-- Four pages are written in three frames.
abbrev program : List Op
program = put 0 5 10 ∷ put 1 5 11 ∷ put 2 5 12 ∷ put 3 5 13 ∷ get 0 5 ∷ []

run_refines_example :
    Returns
      (λ out t.
        (out ≡ array_values (view core_0) program)
        × (view t.core ≡ array_run (view core_0) program)
        × FifoInv t)
      (run program (machine fifo [] 0))
run_refines_example =
    run_refines program (machine fifo [] 0) (machine-FifoInv 0) (omega arith) (omega arith)

start-Started_example : Returns (λ _ s. Started found 4 s) (start found fifo 4 3)
start-Started_example =
    start-Started found 4 3 (omega arith) (omega arith) (omega arith) (omega arith)
