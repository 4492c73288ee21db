-- ===== src/FileSystem/Text.antt =====
-- strncpy and strncat on memory, as fs.c uses them on blocks of data.
use c_coding_examples_operat.Common.{
  ℕ, zero, suc, ◌+◌, ◌≤◌, ◌<◌, ◌≡◌, refl, ◌≢◌, ◌==◌, ltb, if◌then◌else◌, Bool, false, ◌||◌, List,
  [], ◌∷◌, arith, ap, length,
}

-- Memory from a pointer on: the byte at each offset.
abbrev pub Memory : Type 0
Memory = ℕ → ℕ

-- a NUL among the first `n` bytes
abbrev pub has_nul : Memory → ℕ → Bool
has_nul m zero = false
has_nul m (suc n) = has_nul m n || m n == 0

-- `strncpy(dest, src, n)`: the bytes of `src` up to its first NUL, then NULs, `n` in all
unfoldable pub strncpy : Memory → Memory → ℕ → Memory
strncpy dest src n k = if ltb k n then (if has_nul src k then 0 else src k) else dest k

-- What `strncat(dest, src, n)` puts behind the text of `dest`: the bytes of `src` before its first
-- NUL, `n` at most. `i` is the offset that the text is read from.
unfoldable pub text_of : Memory → ℕ → ℕ → List ℕ
text_of src i zero = []
text_of src i (suc n) = let rest = text_of src (i + 1) n in if src i == 0 then [] else src i ∷ rest

-- the bytes from offset `i` on
abbrev pub bytes : Memory → ℕ → ℕ → List ℕ
bytes m i zero = []
bytes m i (suc n) = m i ∷ bytes m (i + 1) n

-- no NUL among the first `n` bytes
abbrev pub IsText : Memory → ℕ → Type 0
IsText m n = (k : ℕ) → k < n → m k ≢ 0

pub has_nul-false : (m : Memory) (n : ℕ) → IsText m n → has_nul m n ≡ false
has_nul-false m zero h = refl
has_nul-false m (suc n) h =
    ground (arith, has_nul-false m n (λ k l. h k (omega arith)), h n (omega arith))

-- Copied text comes back as it was.
pub text_of-strncpy :
    (dest src : Memory) (n i k : ℕ)
    → IsText src n
    → i + k ≤ n
    → text_of (strncpy dest src n) i k ≡ bytes src i k
unfolding text_of
text_of-strncpy dest src n i zero h l = refl
text_of-strncpy dest src n i (suc k) h l =
    rw (copied)
      (ground (arith, h i (omega arith), text_of-strncpy dest src n (i + 1) k h (omega arith)))
  where
    copied : strncpy dest src n i ≡ src i
    copied = unfold strncpy in ground (arith, has_nul-false src i (λ j below. h j (omega arith)))

pub length-bytes : (m : Memory) (i n : ℕ) → length (bytes m i n) ≡ n
length-bytes m i zero = refl
length-bytes m i (suc n) = ap suc (length-bytes m (i + 1) n)
