-- ===== src/VirtualMemory/Access.antt =====
-- Accesses of a program to the virtual memory: a fault runs internal_fault_handler of
-- "05. Virtual Memory/page_table.c", and the access is tried again when that returns.
pub mod Refine
use c_coding_examples_operat.Common.{
  ℕ, zero, suc, ltb, if◌then◌else◌, update, Bool, List, [], ◌∷◌, ◌&&◌,
}
use c_coding_examples_operat.Common.Run.{
  Run, ok, aborted, out_of_fuel, M, pure, and_then, ◌>>=◌, ◌>>◌,
}
use c_coding_examples_operat.VirtualMemory.Memory.{Page, Core, Vm, has_read, has_write}
use c_coding_examples_operat.VirtualMemory.Handler.{page_fault_handler}
use c_coding_examples_operat.VirtualMemory.View.{touch}

-- The fault address lies in page `page`; one outside the virtual memory ends the program.
unfoldable pub internal_fault_handler : ℕ → M Vm (Unit {0})
internal_fault_handler page s = if ltb page s.npages then page_fault_handler page s else aborted

-- A byte of the virtual memory is read, or written: page, offset and value.
pub data Op : Type 0 where
  get : ℕ → ℕ → Op
  put : ℕ → ℕ → ℕ → Op

-- A read wants the page readable, a write wants it writable: the fuel counts the tries.
unfoldable pub get_byte : ℕ → ℕ → ℕ → M Vm ℕ
get_byte zero page off s = out_of_fuel
get_byte (suc k) page off s =
    if has_read (s.bits page)
    then ok (s.phys (s.mapping page) off) s
    else and_then (internal_fault_handler page s) (λ _. get_byte k page off)

unfoldable pub put_byte : ℕ → ℕ → ℕ → ℕ → M Vm ℕ
put_byte zero page off v s = out_of_fuel
put_byte (suc k) page off v s =
    if has_read (s.bits page) && has_write (s.bits page)
    then ok v (record s { core = touch s.core page (update (s.phys (s.mapping page)) off v) })
    else and_then (internal_fault_handler page s) (λ _. put_byte k page off v)

-- A page faults twice at most: once to come in, and once to become writable.
unfoldable pub perform : Op → M Vm ℕ
perform (get page off) = get_byte 2 page off
perform (put page off v) = put_byte 3 page off v

-- The values read and written by the operations of a program, in order.
unfoldable pub run : List Op → M Vm (List ℕ)
run [] = pure []
run (o ∷ os) = do v ← perform o; vs ← run os; pure (v ∷ vs)
