-- ===== src/VirtualMemory/Access/Refine.antt =====
-- With the algorithm "fifo" the virtual memory is a plain array of pages.
use c_coding_examples_operat.Common.{
  ℕ, suc, ◌+◌, ◌≤◌, ◌<◌, ◌≡◌, refl, update, true, false, arith, ◌∙◌, ap, lt→ltb, Bool-cases, inl,
  inr, List, [], ◌∷◌, length, fun_ext,
}
use c_coding_examples_operat.Common.Run.{ok, Returns, returns, Returns-bind, Returns-mono}
use c_coding_examples_operat.VirtualMemory.Memory.{Page, Vm, has_read, has_write}
use c_coding_examples_operat.VirtualMemory.PageTable.{page_table_set_entry, page_table_get_entry}
use c_coding_examples_operat.VirtualMemory.Handler.{counted_fault, upgrade, page_fault_handler}
use c_coding_examples_operat.VirtualMemory.Handler.Fifo.{FifoInv, page_fault_handler-fifo}
use c_coding_examples_operat.VirtualMemory.View.{
  Resident, view, allow_write, allow_write-Inv, view-allow_write, touch, touch-Inv, view-touch,
}
use c_coding_examples_operat.VirtualMemory.Access.{
  Op, get, put, internal_fault_handler, get_byte, put_byte, perform, run,
}

-- The specification: pages of bytes, with no frames and no faults.
abbrev pub Array : Type 0
Array = ℕ → Page

abbrev pub array_value : Array → Op → ℕ
array_value a (get page off) = a page off
array_value a (put page off v) = v

abbrev pub array_next : Array → Op → Array
array_next a (get page off) = a
array_next a (put page off v) = update a page (update (a page) off v)

unfoldable pub array_values : Array → List Op → List ℕ
array_values a [] = []
array_values a (o ∷ os) = array_value a o ∷ array_values (array_next a o) os

unfoldable pub array_run : Array → List Op → Array
array_run a [] = a
array_run a (o ∷ os) = array_run (array_next a o) os

abbrev pub page_of : Op → ℕ
page_of (get page off) = page
page_of (put page off v) = page

-- A fault at a page that can be read and not written, in a frame that the machine has, returns: the
-- page is then writable in the same frame, one fault is counted, and nothing else has changed.
pub page_fault_handler-upgrade :
    (s : Vm) (page : ℕ)
    → page < s.npages
    → s.mapping page < s.nframes
    → Resident s.core page
    → has_write (s.bits page) ≡ false
    → page_fault_handler page s
      ≡ ok tt (record (counted_fault s) { core = allow_write s.core page })
unfolding page_fault_handler page_table_get_entry upgrade page_table_set_entry
page_fault_handler-upgrade s page h k r w =
    rw (lt→ltb page s.npages h, r, w, lt→ltb page s.npages h, lt→ltb (s.mapping page) s.nframes k)

-- The state stands for the array, after at most `n` cells more of FIFO than before.
record Stands (s : Vm) (a : Array) (n : ℕ) (t : Vm) : Type 0 where
  fifo : FifoInv t
  content : view t.core ≡ a
  used : t.push_index ≤ s.push_index + n
  same_range : t.npages ≡ s.npages

allowed-FifoInv :
    (s : Vm) (page : ℕ)
    → FifoInv s
    → Resident s.core page
    → FifoInv (record (counted_fault s) { core = allow_write s.core page })
allowed-FifoInv s page f r = record {
  inv = allow_write-Inv s.core f.inv page r;
  algorithm = f.algorithm;
  some_frames = f.some_frames;
  few_frames = f.few_frames;
  order = f.order;
  entries = λ k a b. ground (arith, f.entries k);
  once = f.once;
  balance = f.balance;
}

touched-FifoInv :
    (s : Vm) (page : ℕ) (content : Page)
    → FifoInv s
    → Resident s.core page
    → has_write (s.bits page) ≡ true
    → FifoInv (record s { core = touch s.core page content })
touched-FifoInv s page content f r w = record {
  inv = touch-Inv s.core f.inv page r content w;
  algorithm = f.algorithm;
  some_frames = f.some_frames;
  few_frames = f.few_frames;
  order = f.order;
  entries = f.entries;
  once = f.once;
  balance = f.balance;
}

-- A readable page is there at the next try, whatever the fuel is.
get_byte-Resident :
    (k : ℕ) (s : Vm) (page off : ℕ)
    → Resident s.core page
    → get_byte (suc k) page off s ≡ ok (view s.core page off) s
unfolding get_byte
get_byte-Resident k s page off r = rw r

module _ (a : Array) (page off v : ℕ) where
  abbrev Put : Vm → ℕ → ℕ → Vm → Type 0
  Put s n out t = (out ≡ v) × Stands s (array_next a (put page off v)) n t

  put_byte-writable :
      (k : ℕ) (s : Vm)
      → FifoInv s
      → view s.core ≡ a
      → Resident s.core page
      → has_write (s.bits page) ≡ true
      → Returns (Put s 0) (put_byte (suc k) page off v s)
  unfolding put_byte
  put_byte-writable k s f is r w =
      rw (r, w)
        (returns (
          refl,
          record {
            fifo = touched-FifoInv s page (update (s.phys (s.mapping page)) off v) f r w;
            content = fun_ext λ q.
                view-touch s.core f.inv page r (update (s.phys (s.mapping page)) off v) q
                ∙ ground (arith, ap (λ (x : Array). x q) is, ap (λ (x : Array). x page) is);
            used = omega arith;
            same_range = refl;
          },
        ))

  put_byte-Resident :
      (k : ℕ) (s : Vm)
      → FifoInv s
      → view s.core ≡ a
      → Resident s.core page
      → Returns (Put s 0) (put_byte (suc (suc k)) page off v s)
  put_byte-Resident k s f is r = elim (Bool-cases (has_write (s.bits page))) [
    | inl w ↦ put_byte-writable (suc k) s f is r w
    | inr w ↦
        unfold put_byte internal_fault_handler in
        rw
          (
            r,
            w,
            lt→ltb page s.npages (f.inv.in_range page r),
            page_fault_handler-upgrade s page (f.inv.in_range page r) (f.inv.frame_in page r) r w,
          )
          (Returns-mono
            (put_byte-writable k (record (counted_fault s) { core = allow_write s.core page })
              (allowed-FifoInv s page f r) (fun_ext (view-allow_write s.core f.inv page r) ∙ is)
              (ground arith) (ground arith))
            λ out t (e, st). (
              e,
              record {
                fifo = st.fifo;
                content = st.content;
                used = st.used;
                same_range = st.same_range;
              },
            ))
  ]

-- The handler brings a page in, and the array stays.
faulted :
    (s : Vm) (page : ℕ)
    → FifoInv s
    → page < s.npages
    → has_read (s.bits page) ≡ false
    → s.push_index < 4096
    → Returns
        (λ _ t. Stands s (view s.core) 1 t × Resident t.core page)
        (internal_fault_handler page s)
unfolding internal_fault_handler
faulted s page f h absent cell = rw (lt→ltb page s.npages h) (
    Returns-mono (page_fault_handler-fifo s page f h absent cell) λ _ t (g, served, used). (
      record {
        fifo = g;
        content = fun_ext served.same_view;
        used = used;
        same_range = served.same_range;
      },
      served.readable,
    ))

-- One operation of a program.
perform-Stands :
    (a : Array) (o : Op) (s : Vm)
    → FifoInv s
    → view s.core ≡ a
    → page_of o < s.npages
    → s.push_index < 4096
    → Returns (λ out t. (out ≡ array_value a o) × Stands s (array_next a o) 1 t) (perform o s)
unfolding perform
perform-Stands a (get page off) s f is h cell = elim (Bool-cases (has_read (s.bits page))) [
  | inl r ↦ rw (get_byte-Resident 1 s page off r) (
      returns (
        ap (λ (x : Array). x page off) is,
        record { fifo = f; content = is; used = omega arith; same_range = refl },
      ))
  | inr absent ↦
      unfold get_byte in
      rw absent (
        Returns-bind (faulted s page f h absent cell) λ _ t (st, r).
          rw (get_byte-Resident 0 t page off r) (
            returns (
              ap (λ (x : Array). x page off) (st.content ∙ is),
              record {
                fifo = st.fifo;
                content = st.content ∙ is;
                used = st.used;
                same_range = st.same_range;
              },
            )))
]
perform-Stands a (put page off v) s f is h cell = elim (Bool-cases (has_read (s.bits page))) [
  | inl r ↦ Returns-mono (put_byte-Resident a page off v 1 s f is r) λ out t (e, st). (
    e,
    record {
      fifo = st.fifo;
      content = st.content;
      used = omega (arith, st.used);
      same_range = st.same_range;
    },
  )
  | inr absent ↦
      unfold put_byte in
      rw absent (
        Returns-bind (faulted s page f h absent cell) λ _ t (st, r).
          Returns-mono (put_byte-Resident a page off v 0 t st.fifo (st.content ∙ is) r)
            λ out u (e, su). (
              e,
              record {
                fifo = su.fifo;
                content = su.content;
                used = omega (arith, su.used, st.used);
                same_range = su.same_range ∙ st.same_range;
              },
            ))
]

abbrev pub AllIn : ℕ → List Op → Type 0
AllIn n [] = Unit {0}
AllIn n (o ∷ os) = (page_of o < n) × AllIn n os

-- Any sequence of reads and writes inside the virtual memory behaves as on an array of pages: it
-- returns, with the values that the array gives, and the virtual memory then has the content of the
-- array; the algorithm is "fifo", its invariant holds before and after, and FIFO has a cell left
-- for each operation.
pub run_refines :
    (os : List Op) (s : Vm)
    → FifoInv s
    → AllIn s.npages os
    → s.push_index + length os ≤ 4096
    → Returns
        (λ out t.
          (out ≡ array_values (view s.core) os)
          × (view t.core ≡ array_run (view s.core) os)
          × FifoInv t)
        (run os s)
unfolding run array_values array_run
run_refines [] s f h l = returns (refl, refl, f)
run_refines (o ∷ os) s f h l =
    Returns-bind (perform-Stands (view s.core) o s f refl h.0 (omega arith)) λ v t (e, st).
      Returns-bind (run_refines os t st.fifo (rw st.same_range h.1) (omega (arith, st.used)))
        λ vs u (es, view_u, g). returns (
          ap (λ (x : ℕ). x ∷ vs) e
              ∙ ap (λ (xs : List ℕ). array_value (view s.core) o ∷ xs)
                  (es ∙ ap (λ (x : Array). array_values x os) st.content),
          view_u ∙ ap (λ (x : Array). array_run x os) st.content,
          g,
        )
