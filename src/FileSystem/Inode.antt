-- ===== src/FileSystem/Inode.antt =====
-- struct fs_inode, struct fs_superblock and the views of a block that hold them
-- ("06. File Systems/fs.c").
use c_coding_examples_operat.Common.{
  ℕ, zero, suc, ◌+◌, ◌*◌, ◌≤◌, ◌<◌, ◌≡◌, refl, ◌∙◌, ◌≢◌, ℤ, pos, IsInt, arith, List, [], ◌∷◌, ◌++◌,
  length, get_or, All, ◌⊎◌, inl,
}
use c_coding_examples_operat.FileSystem.Block.{
  Block, load_int, store_int, load-store_self, load-store_ne,
}

pub record Inode : Type 0 where
  pub isvalid : ℤ
  pub size : ℤ
  pub direct : List ℤ
  pub indirect : ℤ

abbrev pub load_ints : Block → ℕ → ℕ → List ℤ
load_ints b i zero = []
load_ints b i (suc n) = load_int b i ∷ load_ints b (i + 1) n

unfoldable pub store_ints : Block → ℕ → List ℤ → Block
store_ints b i [] = b
store_ints b i (z ∷ zs) = store_ints (store_int b i z) (i + 1) zs

-- `b.inode[j]`: eight integers of the table
unfoldable pub load_inode : Block → ℕ → Inode
load_inode b j = record {
  isvalid = load_int b (8 * j);
  size = load_int b (8 * j + 1);
  direct = load_ints b (8 * j + 2) 5;
  indirect = load_int b (8 * j + 7);
}

abbrev pub words : Inode → List ℤ
words n = n.isvalid ∷ n.size ∷ (n.direct ++ (n.indirect ∷ []))

-- `b.inode[j] = n`
unfoldable pub store_inode : Block → ℕ → Inode → Block
store_inode b j n = store_ints b (8 * j) (words n)

-- What C lets an inode hold: `int`s, five of them in `direct`.
pub record IsInode (n : Inode) : Type 0 where
  pub five : length n.direct ≡ 5
  pub ints : All IsInt (words n)

-- the fields of `b.super`
abbrev pub super_magic : Block → ℤ
super_magic b = load_int b 0

abbrev pub super_nblocks : Block → ℤ
super_nblocks b = load_int b 1

abbrev pub super_ninodeblocks : Block → ℤ
super_ninodeblocks b = load_int b 2

abbrev pub super_ninodes : Block → ℤ
super_ninodes b = load_int b 3

pub load-store_ints_ne :
    (b : Block) (i k : ℕ) (zs : List ℤ)
    → (k < i) ⊎ (i + length zs ≤ k)
    → load_int (store_ints b i zs) k ≡ load_int b k
unfolding store_ints
load-store_ints_ne b i k [] h = refl
load-store_ints_ne b i k (z ∷ zs) h =
    load-store_ints_ne (store_int b i z) (i + 1) k zs (omega arith)
    ∙ load-store_ne b i k z (omega arith)

pub load-store_ints :
    (b : Block) (i k j : ℕ) (zs : List ℤ)
    → All IsInt zs
    → k < length zs
    → j ≡ i + k
    → load_int (store_ints b i zs) j ≡ get_or zs k (pos 0)
unfolding store_ints
load-store_ints b i k j [] v h e = absurd (omega arith)
load-store_ints b i zero j (z ∷ zs) v h e =
    load-store_ints_ne (store_int b i z) (i + 1) j zs (inl (omega arith))
    ∙ (let e' : j ≡ i = omega arith in rw e' (load-store_self b i z v.0))
load-store_ints b i (suc k) j (z ∷ zs) v h e =
    load-store_ints (store_int b i z) (i + 1) k j zs v.1 (omega arith) (omega arith)

five_of :
    (b : Block) (i : ℕ) (zs : List ℤ)
    → length zs ≡ 5
    → ((k : ℕ) → k < 5 → load_int b (i + k) ≡ get_or zs k (pos 0))
    → load_ints b i 5 ≡ zs
five_of b i (a ∷ c ∷ d ∷ e ∷ f ∷ []) h at = ground (
  arith,
  at 0 (omega arith),
  at 1 (omega arith),
  at 2 (omega arith),
  at 3 (omega arith),
  at 4 (omega arith),
)
five_of b i zs h at = absurd (omega arith)

words_at :
    (ds : List ℤ) (z : ℤ) (k : ℕ)
    → length ds ≡ 5
    → k < 5
    → get_or (ds ++ (z ∷ [])) k (pos 0) ≡ get_or ds k (pos 0)
words_at (a ∷ c ∷ d ∷ e ∷ f ∷ []) z zero h l = refl
words_at (a ∷ c ∷ d ∷ e ∷ f ∷ []) z (suc zero) h l = refl
words_at (a ∷ c ∷ d ∷ e ∷ f ∷ []) z (suc (suc zero)) h l = refl
words_at (a ∷ c ∷ d ∷ e ∷ f ∷ []) z (suc (suc (suc zero))) h l = refl
words_at (a ∷ c ∷ d ∷ e ∷ f ∷ []) z (suc (suc (suc (suc zero)))) h l = refl
words_at ds z k h l = absurd (omega arith)

last_word : (ds : List ℤ) (z : ℤ) → length ds ≡ 5 → get_or (ds ++ (z ∷ [])) 5 (pos 0) ≡ z
last_word (a ∷ c ∷ d ∷ e ∷ f ∷ []) z h = refl
last_word ds z h = absurd (omega arith)

length-words : (n : Inode) → IsInode n → length (words n) ≡ 8
length-words n v = omega (arith, length-snoc n.direct n.indirect)
  where
    length-snoc : (ds : List ℤ) (z : ℤ) → length (ds ++ (z ∷ [])) ≡ length ds + 1
    length-snoc [] z = omega arith
    length-snoc (d ∷ ds) z = omega (arith, length-snoc ds z)

-- An inode of five direct pointers, with all its numbers in the range of an int, that is written to
-- slot `j` of a block is read back from there.
pub load-store_inode_self :
    (b : Block) (j : ℕ) (n : Inode) → IsInode n → load_inode (store_inode b j n) j ≡ n
unfolding load_inode store_inode
load-store_inode_self b j n v = λ i. record {
  isvalid = word 0 (8 * j) (omega arith) (omega arith) i;
  size = word 1 (8 * j + 1) (omega arith) (omega arith) i;
  direct =
      five_of (store_inode b j n) (8 * j + 2) n.direct v.five
        (λ k l.
          word (2 + k) (8 * j + 2 + k) (omega arith) (omega arith)
          ∙ shifted k
          ∙ words_at n.direct n.indirect k v.five l)
        i;
  indirect =
      (word 7 (8 * j + 7) (omega arith) (omega arith) ∙ last_word n.direct n.indirect v.five) i;
}
  where
    word :
        (k m : ℕ)
        → k < 8
        → m ≡ 8 * j + k
        → load_int (store_inode b j n) m ≡ get_or (words n) k (pos 0)
    word k m l e =
        load-store_ints b (8 * j) k m (words n) v.ints (omega (arith, length-words n v)) e

    shifted :
        (k : ℕ)
        → get_or (words n) (2 + k) (pos 0) ≡ get_or (n.direct ++ (n.indirect ∷ [])) k (pos 0)
    shifted k = let e : 2 + k ≡ suc (suc k) = omega arith in rw e

-- A write of such an inode, of five direct pointers and with numbers in the range of an int, to
-- slot `i` of a block leaves the inodes in its other slots as they are.
pub load-store_inode_ne :
    (b : Block) (i j : ℕ) (n : Inode)
    → IsInode n
    → j ≢ i
    → load_inode (store_inode b i n) j ≡ load_inode b j
unfolding load_inode store_inode
load-store_inode_ne b i j n v ne = ground (
  arith,
  same (8 * j),
  same (8 * j + 1),
  same (8 * j + 2),
  same (8 * j + 2 + 1),
  same (8 * j + 2 + 1 + 1),
  same (8 * j + 2 + 1 + 1 + 1),
  same (8 * j + 2 + 1 + 1 + 1 + 1),
  same (8 * j + 7),
)
  where
    same : (m : ℕ) → (m < 8 * i) ⊎ (8 * i + 8 ≤ m) → load_int (store_inode b i n) m ≡ load_int b m
    same m h = load-store_ints_ne b (8 * i) m (words n) (omega (arith, length-words n v))
