-- ===== src/FileSystem/Table/FreeSlot.antt =====
-- What the search of fs_create for an unused inode finds.
use c_coding_examples_operat.Common.{
  ℕ, zero, suc, ◌+◌, ◌≤◌, ◌<◌, ◌≡◌, ◌≢◌, ◌⊎◌, inl, inr, ◌==◌, ◌&&◌, if◌then◌else◌, some, none,
  arith, true, false, is_zero, Bool-cases, ℕ-cases, lt-cases, ltb, Option, Option-cases, subst,
}
use c_coding_examples_operat.FileSystem.Block.{Block}
use c_coding_examples_operat.FileSystem.Inode.{load_inode}
use c_coding_examples_operat.FileSystem.Table.{free_slot}

abbrev pub IsFree : Block → ℕ → Type 0
IsFree b j = is_zero (load_inode b j).isvalid ≡ true

abbrev pub IsUsed : Block → ℕ → Type 0
IsUsed b j = is_zero (load_inode b j).isvalid ≡ false

-- the slots of block `i` that hold files
abbrev pub IsSlot : ℕ → ℕ → Type 0
IsSlot i j = (j ≢ 0) ⊎ (i ≢ 1)

pub free_slot-none :
    (i : ℕ) (b : Block) (f j m : ℕ)
    → 128 < j + f
    → free_slot i b f j ≡ none
    → j ≤ m
    → m < 128
    → IsSlot i m
    → IsUsed b m
unfolding free_slot
free_slot-none i b zero j m h e l k s = absurd (omega arith)
free_slot-none i b (suc f) j m h e l k s =
    ground (arith, free_slot-none i b f (j + 1) m, free_slot-none i b f (1 + 1) m)

pub record Found (i : ℕ) (b : Block) (j k : ℕ) : Type 0 where
  pub in_block : k < 128
  pub slot : IsSlot i k
  pub free : IsFree b k
  pub least : (m : ℕ) → j ≤ m → m < k → IsSlot i m → IsUsed b m

Found-step :
    (i : ℕ) (b : Block) (j j' : ℕ) {k : ℕ} (rest : Option ℕ)
    → (rest ≡ some k → Found i b (j' + 1) k)
    → j' < 128
    → IsSlot i j'
    → ((m : ℕ) → j ≤ m → m < j' → IsSlot i m → ⊥)
    → (if is_zero (load_inode b j').isvalid then some j' else rest) ≡ some k
    → Found i b j k
Found-step i b j j' {k} rest ih l sl skip e =
    elim (Bool-cases (is_zero (load_inode b j').isvalid)) [
      | inl hit ↦
          let e' : j' ≡ k = ground arith in
          record {
            in_block = omega arith;
            slot = subst (IsSlot i) e' sl;
            free = subst (IsFree b) e' hit;
            least = λ m a c d. absurd (skip m a (omega arith) d);
          }
      | inr miss ↦
          let found = ih (ground arith) in
          record {
            in_block = found.in_block;
            slot = found.slot;
            free = found.free;
            least = λ m a c d. elim (ℕ-cases m j') [
              | inl same ↦ rw same miss
              | inr other ↦ elim (lt-cases m j') [
                | inl below ↦ absurd (skip m a below d)
                | inr above ↦ found.least m (omega arith) c d
              ]
            ];
          }
    ]

pub free_slot-Found :
    (i : ℕ) (b : Block) (f j : ℕ) {k : ℕ} → free_slot i b f j ≡ some k → Found i b j k
unfolding free_slot
free_slot-Found i b zero j e = cc
free_slot-Found i b (suc f) j {k} e = elim (Bool-cases (ltb j 128)) [
  | inr out ↦ ground arith
  | inl inside ↦ elim (Bool-cases (j == 0 && i == 1)) [
    | inl first ↦
        Found-step i b j 1 (free_slot i b f (1 + 1)) (free_slot-Found i b f (1 + 1)) (omega arith)
          (omega arith) (λ m a c d. ground arith) (rw (inside, first) at e)
    | inr later ↦
        Found-step i b j j (free_slot i b f (j + 1)) (free_slot-Found i b f (j + 1)) (ground arith)
          (ground arith) (λ m a c d. omega arith) (rw (inside, later) at e)
  ]
]

-- A slot below 128 that is free, other than slot 0 of block 1, makes the search succeed.
pub free_slot_total :
    (i : ℕ) (b : Block) (m : ℕ)
    → m < 128
    → IsSlot i m
    → IsFree b m
    → (k : ℕ) × (free_slot i b 129 0 ≡ some k)
free_slot_total i b m l s free = elim (Option-cases (free_slot i b 129 0)) [
  | inr found ↦ found
  | inl out ↦ cc (free_slot-none i b 129 0 m (omega arith) out (omega arith) l s)
]

-- Where every such slot is used, the search fails.
pub free_slot_full :
    (i : ℕ) (b : Block) → ((m : ℕ) → m < 128 → IsSlot i m → IsUsed b m) → free_slot i b 129 0 ≡ none
free_slot_full i b used = elim (Option-cases (free_slot i b 129 0)) [
  | inl out ↦ out
  | inr (k, e) ↦ let f = free_slot-Found i b 129 0 e in cc (f.free, used k f.in_block f.slot)
]
