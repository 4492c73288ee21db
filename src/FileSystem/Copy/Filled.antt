-- ===== src/FileSystem/Copy/Filled.antt =====
-- The buffer of do_copyin of "06. File Systems/shell.c", and the text in it.
use c_coding_examples_operat.Common.{
  take, drop, ℕ, zero, suc, ◌+◌, ◌≤◌, ◌<◌, ◌≡◌, ◌≢◌, refl, get_or, length, All, List, [], ◌∷◌,
  arith, ap, ◌∙◌,
}
use c_coding_examples_operat.FileSystem.Text.{Memory, bytes, IsText}
use c_coding_examples_operat.FileSystem.Copy.{filled}

pub take-all : (n : ℕ) (xs : List ℕ) → length xs ≤ n → take n xs ≡ xs
take-all zero [] h = refl
take-all zero (x ∷ xs) h = absurd (omega arith)
take-all (suc n) [] h = refl
take-all (suc n) (x ∷ xs) h = ap (λ (ys : List ℕ). x ∷ ys) (take-all n xs (omega arith))

pub drop-all : (n : ℕ) (xs : List ℕ) → length xs ≤ n → drop n xs ≡ []
drop-all zero [] h = refl
drop-all zero (x ∷ xs) h = absurd (omega arith)
drop-all (suc n) [] h = refl
drop-all (suc n) (x ∷ xs) h = drop-all n xs (omega arith)

get_or-ne : (xs : List ℕ) (k d : ℕ) → All (λ (x : ℕ). x ≢ 0) xs → k < length xs → get_or xs k d ≢ 0
get_or-ne [] k d a h = absurd (omega arith)
get_or-ne (x ∷ xs) zero d (n, a) h = n
get_or-ne (x ∷ xs) (suc k) d (n, a) h = get_or-ne xs k d a (omega arith)

-- The buffer holds the text of the file.
pub filled-IsText :
    (xs : List ℕ) (stale : Memory)
    → All (λ (x : ℕ). x ≢ 0) xs
    → IsText (filled xs stale) (length xs)
filled-IsText xs stale a k h = get_or-ne xs k (stale k) a h

bytes-shift :
    (x : ℕ) (xs : List ℕ) (stale : Memory) (i n : ℕ)
    → bytes (filled (x ∷ xs) stale) (suc i) n ≡ bytes (filled xs (λ k. stale (suc k))) i n
bytes-shift x xs stale i zero = refl
bytes-shift x xs stale i (suc n) =
    let e : suc i + 1 ≡ suc (i + 1) = omega arith in
    ap (λ (ys : List ℕ). get_or xs i (stale (suc i)) ∷ ys)
      (ap (λ (k : ℕ). bytes (filled (x ∷ xs) stale) k n) e ∙ bytes-shift x xs stale (i + 1) n)

pub bytes-filled : (xs : List ℕ) (stale : Memory) → bytes (filled xs stale) 0 (length xs) ≡ xs
bytes-filled [] stale = refl
bytes-filled (x ∷ xs) stale =
    ap (λ (ys : List ℕ). x ∷ ys)
      (bytes-shift x xs stale 0 (length xs) ∙ bytes-filled xs (λ k. stale (suc k)))
