-- ===== src/FileSystem/Copy/ReadOnly.antt =====
-- What the reading operations of "06. File Systems/fs.c" leave alone.
use c_coding_examples_operat.Common.{
  ℕ, zero, suc, ◌+◌, ◌/◌, ◌≡◌, refl, ◌∙◌, ltb, ltb_ℤ, leb_ℤ, ◌&&◌, ◌||◌, ℤ, pos, negsuc, get_or,
  is_zero, pos_part, Option, none, some, List, [], ◌≤◌, ◌<◌, arith, Bool-cases, inl, inr,
}
use c_coding_examples_operat.FileSystem.Block.{Block, load_int}
use c_coding_examples_operat.FileSystem.Inode.{Inode, load_inode, super_ninodeblocks}
use c_coding_examples_operat.FileSystem.Machine.{State, Run, ok, aborted, undefined, M, and_then}
use c_coding_examples_operat.FileSystem.Disk.{sanity_check, is_offset, disk_read}
use c_coding_examples_operat.FileSystem.Mount.{pointer_at, indirect_blocks}
use c_coding_examples_operat.FileSystem.Table.{
  getblock_num, slot_of, in_table, size_slot, fs_getsize,
}
use c_coding_examples_operat.FileSystem.Read.{
  Reading, take_section, read_direct, read_pointers, read_indirect, clip, read_file, read_slot,
  fs_read,
}

-- The content of the disk, its size and the bitmap are the same.
pub record Same (s t : State) : Type 0 where
  pub blocks : t.blocks ≡ s.blocks
  pub nblocks : t.nblocks ≡ s.nblocks
  pub bitmap : t.bitmap ≡ s.bitmap

pub Same-refl : (s : State) → Same s s
Same-refl s = record { blocks = refl; nblocks = refl; bitmap = refl }

Same-trans : (s t u : State) → Same s t → Same t u → Same s u
Same-trans s t u a b = record {
  blocks = b.blocks ∙ a.blocks;
  nblocks = b.nblocks ∙ a.nblocks;
  bitmap = b.bitmap ∙ a.bitmap;
}

-- A run from `s` that returns leaves them alone, and its result has the postcondition. It does not
-- use up its fuel.
pub data Quiet {A : Type 0} (s : State) (P : A → Type 0) : Run A → Type 0 where
  quiet : {a : A} {t : State} → Same s t → P a → Quiet s P (ok a t)
  aborts : Quiet s P aborted
  breaks : Quiet s P undefined

-- Nothing is said of the result.
abbrev pub Anything : {A : Type 0} → A → Type 0
Anything a = Unit {0}

onward :
    {B : Type 0} {Q : B → Type 0} (s t : State) {r : Run B} → Same s t → Quiet t Q r → Quiet s Q r
onward s t h (quiet {t = u} g q) = quiet (Same-trans s t u h g) q
onward s t h aborts = aborts
onward s t h breaks = breaks

pub Quiet-bind :
    {A B : Type 0} {P : A → Type 0} {Q : B → Type 0} (s : State) {r : Run A} (k : A → M B)
    → Quiet s P r
    → ((a : A) (t : State) → P a → Quiet t Q (k a t))
    → Quiet s Q (and_then r k)
Quiet-bind s k (quiet {a} {t} h p) next = onward s t h (next a t p)
Quiet-bind s k aborts next = aborts
Quiet-bind s k breaks next = breaks

pub pure-Quiet : {A : Type 0} {P : A → Type 0} (s : State) (a : A) → P a → Quiet s P (ok a s)
pure-Quiet s a p = quiet (Same-refl s) p

pub disk_read-Quiet : (z : ℤ) (s : State) → Quiet s Anything (disk_read z s)
unfolding disk_read sanity_check
disk_read-Quiet z s = elim (Bool-cases (ltb_ℤ z (pos 0))) [
  | inl e ↦ rw e aborts
  | inr e ↦ elim (Bool-cases (leb_ℤ (pos s.nblocks) z)) [
    | inl f ↦ rw (e, f) aborts
    | inr f ↦ elim (Bool-cases (is_offset z)) [
      | inl g ↦ rw (e, f, g) (quiet (record { blocks = refl; nblocks = refl; bitmap = refl }) tt)
      | inr g ↦ rw (e, f, g) breaks
    ]
  ]
]

in_table-Quiet :
    {A : Type 0} {P : A → Type 0} (o : Option ℕ) (k : ℕ → M A) (s : State)
    → ((j : ℕ) → Quiet s P (k j s))
    → Quiet s P (in_table o k s)
in_table-Quiet none k s h = breaks
in_table-Quiet (some j) k s h = h j

pub fs_getsize-Quiet : (inumber : ℤ) (s : State) → Quiet s Anything (fs_getsize inumber s)
unfolding fs_getsize size_slot
fs_getsize-Quiet inumber s = Quiet-bind s _ (disk_read-Quiet (pos 0) s) λ super t p.
    elim (Bool-cases (ltb_ℤ (super_ninodeblocks super) (getblock_num inumber))) [
      | inl e ↦ rw e (pure-Quiet t (negsuc 0) tt)
      | inr e ↦ rw e (
          Quiet-bind t _ (disk_read-Quiet (getblock_num inumber) t) λ b u q.
            in_table-Quiet (slot_of inumber) (size_slot b) u λ j.
              elim (Bool-cases (is_zero (load_inode b j).isvalid)) [
                | inl f ↦ rw f (pure-Quiet u (negsuc 0) tt)
                | inr f ↦ rw f (pure-Quiet u (load_inode b j).size tt)
              ])
    ]

-- No more than `n` bytes have been read.
abbrev Within : ℕ → Reading → Type 0
Within n r = r.total ≤ n

take_section-Within :
    (n : ℕ) (b : Block) (r : Reading) → r.total < n → Within n (take_section n b r)
take_section-Within n b r h = ground arith

read_direct-Quiet :
    (n : ℕ) (direct : List ℤ) (f k : ℕ) (r : Reading) (s : State)
    → Within n r
    → Quiet s (Within n) (read_direct n direct f k r s)
unfolding read_direct
read_direct-Quiet n direct zero k r s h = pure-Quiet s r h
read_direct-Quiet n direct (suc f) k r s h = elim (Bool-cases (ltb k 5 && ltb r.total n)) [
  | inl e ↦ rw e (
      Quiet-bind s _ (disk_read-Quiet (get_or direct k (pos 0)) s) λ b t p.
        read_direct-Quiet n direct f (k + 1) (take_section n b r) t
          (take_section-Within n b r (ground arith)))
  | inr e ↦ rw e (pure-Quiet s r h)
]

pub pointer_at-Quiet : (b : Block) (q : ℕ) (s : State) → Quiet s Anything (pointer_at b q s)
pointer_at-Quiet b q s = elim (Bool-cases (ltb q 1024)) [
  | inl e ↦ rw e (pure-Quiet s (load_int b q) tt)
  | inr e ↦ rw e breaks
]

read_pointers-Quiet :
    (n : ℕ) (block : Block) (f i : ℕ) (r : Reading) (s : State)
    → Within n r
    → Quiet s (Within n) (read_pointers n block f i r s)
unfolding read_pointers
read_pointers-Quiet n block zero i r s h = pure-Quiet s r h
read_pointers-Quiet n block (suc f) i r s h = elim (Bool-cases (ltb r.total n)) [
  | inl e ↦ rw e (
      Quiet-bind s _ (pointer_at-Quiet block i s) λ p t a.
        Quiet-bind t _ (disk_read-Quiet p t) λ b u q.
          read_pointers-Quiet n block f (i + 1) (take_section n b r) u
            (take_section-Within n b r (ground arith)))
  | inr e ↦ rw e (pure-Quiet s r h)
]

read_indirect-Quiet :
    (n : ℕ) (inode : Inode) (r : Reading) (s : State)
    → Within n r
    → Quiet s (Within n) (read_indirect n inode r s)
unfolding read_indirect
read_indirect-Quiet n inode r s h = elim (Bool-cases (ltb r.total n)) [
  | inl e ↦ rw e (
      Quiet-bind s _ (disk_read-Quiet inode.indirect s) λ block t p.
        read_pointers-Quiet n block (pos_part (indirect_blocks inode.size)) 0
          (record r { section = 4096 }) t h)
  | inr e ↦ rw e (pure-Quiet s r h)
]

-- fs_read gives no more bytes than it is asked for, and none from byte 24576 on.
abbrev pub Limited : ℕ → ℕ → ℤ × List ℕ → Type 0
Limited n offset (negsuc k, text) = Unit {0}
Limited n offset (pos zero, text) = Unit {0}
Limited n offset (pos (suc k), text) = (offset < 24576) × (suc k ≤ n)

Limited-total :
    (n offset total : ℕ) (text : List ℕ)
    → offset < 24576
    → total ≤ n
    → Limited n offset (pos total, text)
Limited-total n offset zero text h k = tt
Limited-total n offset (suc total) text h k = (h, k)

read_file-Quiet :
    (inode : Inode) (n offset : ℕ) (s : State)
    → offset < 24576
    → Quiet s (Limited n offset) (read_file inode n offset s)
unfolding read_file
read_file-Quiet inode n offset s h =
    let size : ℕ = clip inode.size n offset in
    let small : clip inode.size n offset ≤ n = clip_le inode.size n offset in
    Quiet-bind s _
      (read_direct-Quiet size inode.direct 5 (offset / 4096)
        (record { text = []; total = 0; section = 4096 }) s (omega arith))
      λ r t a. Quiet-bind t _ (read_indirect-Quiet size inode r t a) λ r' u b.
        pure-Quiet u (pos r'.total, r'.text)
          (Limited-total n offset r'.total r'.text h (omega (arith, small, b)))
  where
    clip_le : (size : ℤ) (n offset : ℕ) → clip size n offset ≤ n
    clip_le (pos size) n offset = ground arith
    clip_le (negsuc size) n offset = ground arith

read_slot-Quiet :
    (n offset : ℕ) (b : Block) (j : ℕ) (s : State)
    → Quiet s (Limited n offset) (read_slot n offset b j s)
unfolding read_slot
read_slot-Quiet n offset b j s =
    elim (Bool-cases (
      is_zero (load_inode b j).isvalid
      || is_zero (load_inode b j).size
      || ltb_ℤ (load_inode b j).size (pos offset)
      || ltb 5 (offset / 4096))) [
        | inl e ↦ rw e (pure-Quiet s (pos 0, []) tt)
        | inr e ↦ rw e (read_file-Quiet (load_inode b j) n offset s (ground arith))
      ]

pub fs_read-Quiet :
    (inumber : ℤ) (n offset : ℕ) (s : State)
    → Quiet s (Limited n offset) (fs_read inumber n offset s)
unfolding fs_read
fs_read-Quiet inumber n offset s = Quiet-bind s _ (disk_read-Quiet (pos 0) s) λ super t p.
    elim (Bool-cases
      (ltb_ℤ (super_ninodeblocks super) (getblock_num inumber) || is_zero (getblock_num inumber))) [
        | inl e ↦ rw e (pure-Quiet t (negsuc 0, []) tt)
        | inr e ↦ rw e (
            Quiet-bind t _ (disk_read-Quiet (getblock_num inumber) t) λ b u q.
              in_table-Quiet (slot_of inumber) (read_slot n offset b) u
                λ j. read_slot-Quiet n offset b j u)
      ]
