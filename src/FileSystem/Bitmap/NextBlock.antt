-- ===== src/FileSystem/Bitmap/NextBlock.antt =====
-- getNextBlock: which block it gives, and that it does not reserve it.
use c_coding_examples_operat.Common.{
  ℕ, zero, suc, ◌+◌, ◌-◌, ◌≤◌, ◌<◌, ◌≡◌, refl, ◌≢◌, ◌==◌, if◌then◌else◌, ℤ, pos, negsuc, some,
  update, arith, fun_ext, ◌∙◌, ap, sym, ℕ-cases, Bool-cases, inl, inr, ◌⊎◌,
}
use c_coding_examples_operat.FileSystem.Inode.{super_ninodeblocks}
use c_coding_examples_operat.FileSystem.Machine.{State, Bits, ok}
use c_coding_examples_operat.FileSystem.Disk.{disk_read-ok, counted_read}
use c_coding_examples_operat.FileSystem.Bitmap.{get_bit, scan_free, get_next_block}
use c_coding_examples_operat.FileSystem.Bitmap.Access.{set_bit-ok, marked}

-- The first unmarked block among the `k` from `i` on, or -1.
unfoldable pub first_free : Bits → ℕ → ℕ → ℤ
first_free m zero i = negsuc 0
first_free m (suc k) i = let rest = first_free m k (i + 1) in if m.bit i == 0 then pos i else rest

-- Setting an unmarked cell to 0 changes nothing.
marked-unmarked :
    (s : State) (m : Bits) (i : ℕ) → s.bitmap ≡ some m → m.bit i ≡ 0 → marked s m i 0 ≡ s
marked-unmarked s m i e z =
    λ d. record s { bitmap = (ap (λ (f : ℕ → ℕ). some (record m { bit = f })) same ∙ sym e) d }
  where
    same : update m.bit i 0 ≡ m.bit
    same = fun_ext λ k. ground arith

scan_free-first_free :
    (k i : ℕ) (s : State) (m : Bits)
    → s.bitmap ≡ some m
    → (i + k ≤ m.size) ⊎ (k ≡ 0)
    → scan_free k i s ≡ ok (first_free m k i) s
unfolding scan_free first_free
scan_free-first_free zero i s m e h = refl
scan_free-first_free (suc k) i s m e h = rw got (elim (Bool-cases (m.bit i == 0)) [
  | inl free ↦
      rw (free, set_bit-ok i 0 s m e (omega arith))
        (ap (ok (pos i)) (marked-unmarked s m i e (ground arith)))
  | inr used ↦ rw used (scan_free-first_free k (i + 1) s m e (inl inside))
])
  where
    inside : i + 1 + k ≤ m.size
    inside = omega arith

    got : get_bit i s ≡ ok (m.bit i) s
    got = ground arith

-- The bitmap of a mounted disk, and the superblock that getNextBlock reads.
pub record HasMap (s : State) (m : Bits) (nib : ℕ) : Type 0 where
  pub map : s.bitmap ≡ some m
  pub declared : s.size_bitmap ≡ pos m.size
  pub super : super_ninodeblocks (s.blocks 0) ≡ pos nib
  pub room : 0 < s.nblocks

abbrev pub next_free : Bits → ℕ → ℤ
next_free m nib = first_free m (m.size - (nib + 1)) (nib + 1)

-- getNextBlock gives the first unmarked block behind the inode blocks, or -1 if there is none, and
-- changes neither the bitmap nor the disk.
pub get_next_block-next_free :
    (s : State) (m : Bits) (nib : ℕ)
    → HasMap s m nib
    → get_next_block s ≡ ok (next_free m nib) (counted_read s)
unfolding get_next_block
get_next_block-next_free s m nib h =
    rw (disk_read-ok 0 s h.room, h.super, h.declared)
      (scan_free-first_free (m.size - (nib + 1)) (nib + 1)
        (record s { nreads = s.nreads + 1; size_bitmap = pos m.size }) m h.map (omega arith))

pub record IsFirstFree (m : Bits) (k i p : ℕ) : Type 0 where
  pub from : i ≤ p
  pub below : p < i + k
  pub unmarked : m.bit p ≡ 0
  pub least : (q : ℕ) → i ≤ q → q < p → m.bit q ≢ 0

-- `first_free` finds the least unmarked block, if there is one, ...
pub first_free-IsFirstFree :
    (m : Bits) (k i : ℕ) {p : ℕ} → first_free m k i ≡ pos p → IsFirstFree m k i p
unfolding first_free
first_free-IsFirstFree m zero i e = cc
first_free-IsFirstFree m (suc k) i {p} e = elim (Bool-cases (m.bit i == 0)) [
  | inl free ↦
      let same : i ≡ p = ground arith in
      record {
        from = omega arith;
        below = omega arith;
        unmarked = ground arith;
        least = λ q a b. absurd (omega arith);
      }
  | inr used ↦
      let f = first_free-IsFirstFree m k (i + 1) (rw used at e) in
      record {
        from = omega (arith, f.from);
        below = omega (arith, f.below);
        unmarked = f.unmarked;
        least = λ q a b. elim (ℕ-cases q i) [
          | inl same ↦ ground arith
          | inr later ↦ f.least q (omega arith) b
        ];
      }
]

-- ... and -1 exactly when every one is marked.
pub first_free-none :
    (m : Bits) (k i : ℕ) {n : ℕ}
    → first_free m k i ≡ negsuc n
    → (q : ℕ) → i ≤ q
    → q < i + k
    → m.bit q ≢ 0
unfolding first_free
first_free-none m zero i e q a b = absurd (omega arith)
first_free-none m (suc k) i e q a b = elim (Bool-cases (m.bit i == 0)) [
  | inl free ↦ ground arith
  | inr used ↦ elim (ℕ-cases q i) [
    | inl same ↦ ground arith
    | inr later ↦ first_free-none m k (i + 1) (rw used at e) q (omega arith) (omega arith)
  ]
]

-- A mark below the range changes nothing.
pub first_free-update :
    (m : Bits) (k i j v : ℕ)
    → j < i
    → first_free (record m { bit = update m.bit j v }) k i ≡ first_free m k i
unfolding first_free
first_free-update m zero i j v h = refl
first_free-update m (suc k) i j v h = ground (arith, first_free-update m k (i + 1) j v)

-- what getNextBlock returns
pub data Next (m : Bits) (nib : ℕ) (r : ℤ) : Type 0 where
  found : (p : ℕ) → r ≡ pos p → IsFirstFree m (m.size - (nib + 1)) (nib + 1) p → Next m nib r
  full : r ≡ negsuc 0 → ((q : ℕ) → nib < q → q < m.size → m.bit q ≢ 0) → Next m nib r

only_minus_one : (m : Bits) (k i n : ℕ) → first_free m k i ≡ negsuc n → first_free m k i ≡ negsuc 0
unfolding first_free
only_minus_one m zero i n e = refl
only_minus_one m (suc k) i n e = ground (arith, only_minus_one m k (i + 1) n)

first_free-Next : (m : Bits) (nib : ℕ) (r : ℤ) → next_free m nib ≡ r → Next m nib r
first_free-Next m nib (pos p) e =
    found p refl (first_free-IsFirstFree m (m.size - (nib + 1)) (nib + 1) e)
first_free-Next m nib (negsuc n) e =
    full (sym e ∙ only_minus_one m (m.size - (nib + 1)) (nib + 1) n e)
      (λ q a b. first_free-none m (m.size - (nib + 1)) (nib + 1) e q (omega arith) (omega arith))

-- On a mounted disk getNextBlock returns the first unmarked block behind the inode blocks, or -1
-- when every block there is marked. It leaves the bitmap and the disk as they are, so that the
-- next call gives the same block.
pub get_next_block_lem :
    (s : State) (m : Bits) (nib : ℕ)
    → HasMap s m nib
    → (r : ℤ) × Next m nib r
      × (get_next_block s ≡ ok r (counted_read s))
      × (get_next_block (counted_read s) ≡ ok r (counted_read (counted_read s)))
get_next_block_lem s m nib h = (
  next_free m nib,
  first_free-Next m nib (next_free m nib) refl,
  get_next_block-next_free s m nib h,
  get_next_block-next_free (counted_read s) m nib
      (record { map = h.map; declared = h.declared; super = h.super; room = h.room }),
)
