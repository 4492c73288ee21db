-- ===== src/VirtualMemory/View.antt =====
-- The content of the virtual memory, and what keeps it together: the invariant of page table,
-- frames and disk, and the two changes of an eviction and of a page that comes in.
use c_coding_examples_operat.Common.{
  ℕ, ◌<◌, ◌≡◌, ◌≢◌, ◌==◌, if◌then◌else◌, update, true, false, arith, ◌∙◌,
}
use c_coding_examples_operat.VirtualMemory.Memory.{Page, Core, has_read, has_write}

abbrev pub Resident : Core → ℕ → Type 0
Resident c p = has_read (c.bits p) ≡ true

-- The content of page `p`: that of its frame if it has one, and that of its disk block if not.
abbrev pub view : Core → ℕ → Page
view c p = if has_read (c.bits p) then c.phys (c.mapping p) else c.disk p

pub record Inv (c : Core) : Type 0 where
  pub in_range : (p : ℕ) → Resident c p → p < c.npages
  pub frame_in : (p : ℕ) → Resident c p → c.mapping p < c.nframes
  pub distinct : (p q : ℕ) → Resident c p → Resident c q → c.mapping p ≡ c.mapping q → p ≡ q
  pub clean :
      (p : ℕ) → Resident c p → has_write (c.bits p) ≡ false → c.phys (c.mapping p) ≡ c.disk p
  pub occupied : (p : ℕ) → Resident c p → c.phys_free (c.mapping p) ≢ 0

-- page `page` comes into frame `f`
abbrev pub place : Core → ℕ → ℕ → Core
place c page f = record c {
  mapping = update c.mapping page f;
  bits = update c.bits page 1;
  phys = update c.phys f (c.disk page);
}

module _ (c : Core) (inv : Inv c) (page f : ℕ) (page_in : page < c.npages) (f_in : f < c.nframes)
    (absent : has_read (c.bits page) ≡ false) (taken : c.phys_free f ≢ 0)
    (unused : (q : ℕ) → Resident c q → c.mapping q ≢ f) where
  pub place-Inv : Inv (place c page f)
  place-Inv = record {
    in_range = λ p r. ground (arith, inv.in_range p);
    frame_in = λ p r. ground (arith, inv.frame_in p);
    distinct = λ p q r t e. ground (arith, inv.distinct p q, unused p, unused q);
    clean = λ p r w. ground (arith, inv.clean p, unused p);
    occupied = λ p r. ground (arith, inv.occupied p);
  }

  pub view-place : (q : ℕ) → view (place c page f) q ≡ view c q
  view-place q = ground (arith, unused q)

-- page `v` leaves its frame
abbrev pub evict : Core → ℕ → Core
evict c v = record c {
  mapping = update c.mapping v 0;
  bits = update c.bits v 0;
  disk = if has_write (c.bits v) then update c.disk v (c.phys (c.mapping v)) else c.disk;
}

-- a page that can be read becomes writable
abbrev pub allow_write : Core → ℕ → Core
allow_write c page = record c {
  mapping = update c.mapping page (c.mapping page);
  bits = update c.bits page 3;
}

-- the program writes a page: its frame changes
abbrev pub touch : Core → ℕ → Page → Core
touch c page content = record c { phys = update c.phys (c.mapping page) content }

module _ (c : Core) (inv : Inv c) (v : ℕ) (here : Resident c v) where
  pub evict-Inv : Inv (evict c v)
  evict-Inv = record {
    in_range = λ p r. ground (arith, inv.in_range p);
    frame_in = λ p r. ground (arith, inv.frame_in p);
    distinct = λ p q r t e. ground (arith, inv.distinct p q);
    clean = λ p r w. ground (arith, inv.clean p);
    occupied = λ p r. ground (arith, inv.occupied p);
  }

  pub view-evict : (q : ℕ) → view (evict c v) q ≡ view c q
  view-evict q = ground (arith, inv.clean v)

  -- The frame of the page that left is in no use.
  pub evict_unused : (q : ℕ) → Resident (evict c v) q → (evict c v).mapping q ≢ c.mapping v
  evict_unused q r e = ground (arith, inv.distinct q v)

  pub allow_write-Inv : Inv (allow_write c v)
  allow_write-Inv = record {
    in_range = λ p r. ground (arith, inv.in_range p, inv.in_range v);
    frame_in = λ p r. ground (arith, inv.frame_in p, inv.frame_in v);
    distinct = λ p q r t e. ground (arith, inv.distinct p q, inv.distinct v q, inv.distinct p v);
    clean = λ p r w. ground (arith, inv.clean p);
    occupied = λ p r. ground (arith, inv.occupied p, inv.occupied v);
  }

  pub view-allow_write : (q : ℕ) → view (allow_write c v) q ≡ view c q
  view-allow_write q = ground arith

  pub touch-Inv : (content : Page) → has_write (c.bits v) ≡ true → Inv (touch c v content)
  touch-Inv content w = record {
    in_range = inv.in_range;
    frame_in = inv.frame_in;
    distinct = inv.distinct;
    clean = λ p r k. ground (arith, inv.clean p, inv.distinct p v);
    occupied = inv.occupied;
  }

  pub view-touch :
      (content : Page) (q : ℕ) → view (touch c v content) q ≡ (if q == v then content else view c q)
  view-touch content q = ground (arith, inv.distinct q v)

abbrev pub take_frame : Core → ℕ → Core
take_frame c i = record c { phys_free = update c.phys_free i 1 }

-- A page comes in from the disk, into a frame that was free or into that of another page.
module _ (c : Core) (inv : Inv c) (page : ℕ) (page_in : page < c.npages)
    (absent : has_read (c.bits page) ≡ false) where
  take_frame-Inv : (i : ℕ) → Inv (take_frame c i)
  take_frame-Inv i = record {
    in_range = inv.in_range;
    frame_in = inv.frame_in;
    distinct = inv.distinct;
    clean = inv.clean;
    occupied = λ p r. ground (arith, inv.occupied p r);
  }

  free_unused : (i : ℕ) → c.phys_free i ≡ 0 → (q : ℕ) → Resident c q → c.mapping q ≢ i
  free_unused i z q r e = ground (arith, inv.occupied q r)

  taken : (i : ℕ) → update c.phys_free i 1 i ≢ 0
  taken i e = ground arith

  pub comes_in-Inv :
      (i : ℕ) → i < c.nframes → c.phys_free i ≡ 0 → Inv (place (take_frame c i) page i)
  comes_in-Inv i l z =
      place-Inv (take_frame c i) (take_frame-Inv i) page i page_in l absent (taken i)
        (free_unused i z)

  pub view-comes_in :
      (i : ℕ)
      → i < c.nframes
      → c.phys_free i ≡ 0
      → (q : ℕ) → view (place (take_frame c i) page i) q ≡ view c q
  view-comes_in i l z =
      view-place (take_frame c i) (take_frame-Inv i) page i page_in l absent (taken i)
        (free_unused i z)

  module _ (v : ℕ) (here : Resident c v) where
    still_absent : has_read ((evict c v).bits page) ≡ false
    still_absent = ground arith

    pub takes_over-Inv : Inv (place (evict c v) page (c.mapping v))
    takes_over-Inv =
        place-Inv (evict c v) (evict-Inv c inv v here) page (c.mapping v) page_in
          (inv.frame_in v here) still_absent (inv.occupied v here) (evict_unused c inv v here)

    pub view-takes_over : (q : ℕ) → view (place (evict c v) page (c.mapping v)) q ≡ view c q
    view-takes_over q =
        view-place (evict c v) (evict-Inv c inv v here) page (c.mapping v) page_in
          (inv.frame_in v here) still_absent (inv.occupied v here) (evict_unused c inv v here) q
        ∙ view-evict c inv v here q
