-- ===== src/Common/Pieces.antt =====
-- Pieces of lists of bytes: take, drop and their lengths.
use Prim.Native.Nat.{ℕ, zero, suc, ◌+◌, ◌-◌, ◌≤◌}
use mathlib.Core.Path.{◌≡◌, refl, sym, ap, ◌∙◌}
use mathlib.Core.List.{List, [], ◌∷◌, ◌++◌}
use native.Mathlib.Omega.{arith}
use c_coding_examples_operat.Common.Lists.{length, take, drop}

pub take-drop : (n : ℕ) (xs : List ℕ) → take n xs ++ drop n xs ≡ xs
take-drop zero xs = refl
take-drop (suc n) [] = refl
take-drop (suc n) (x ∷ xs) = ap (λ (ys : List ℕ). x ∷ ys) (take-drop n xs)

pub drop-nil : (k : ℕ) → drop {A = ℕ} k [] ≡ []
drop-nil zero = refl
drop-nil (suc k) = refl

take-nil : (k : ℕ) → take {A = ℕ} k [] ≡ []
take-nil zero = refl
take-nil (suc k) = refl

suc-add : (a b : ℕ) → suc (a + b) ≡ suc a + b
suc-add a b = omega arith

pub drop-drop : (m n : ℕ) (xs : List ℕ) → drop m (drop n xs) ≡ drop (n + m) xs
drop-drop m zero xs = ap (λ (k : ℕ). drop k xs) (omega arith)
drop-drop m (suc n) [] = drop-nil m ∙ sym (drop-nil (suc n + m))
drop-drop m (suc n) (x ∷ xs) = drop-drop m n xs ∙ ap (λ (k : ℕ). drop k (x ∷ xs)) (suc-add n m)

-- A piece, and the piece behind it
pub take-more : (a b : ℕ) (xs : List ℕ) → take a xs ++ take b (drop a xs) ≡ take (a + b) xs
take-more zero b xs = ap (λ (k : ℕ). take k xs) (omega arith)
take-more (suc a) b [] = take-nil b ∙ sym (take-nil (suc a + b))
take-more (suc a) b (x ∷ xs) =
    ap (λ (ys : List ℕ). x ∷ ys) (take-more a b xs) ∙ ap (λ (k : ℕ). take k (x ∷ xs)) (suc-add a b)

pub take-length : (xs : List ℕ) → take (length xs) xs ≡ xs
take-length [] = refl
take-length (x ∷ xs) = ap (λ (ys : List ℕ). x ∷ ys) (take-length xs)

pub length-drop : (n : ℕ) (xs : List ℕ) → length (drop n xs) ≡ length xs - n
length-drop zero xs = omega arith
length-drop (suc n) [] = omega arith
length-drop (suc n) (x ∷ xs) = omega (arith, length-drop n xs)

pub length-take : (n : ℕ) (xs : List ℕ) → n ≤ length xs → length (take n xs) ≡ n
length-take zero xs h = refl
length-take (suc n) [] h = absurd (omega arith)
length-take (suc n) (x ∷ xs) h = ap suc (length-take n xs (omega arith))

pub length-append : (xs ys : List ℕ) → length (xs ++ ys) ≡ length xs + length ys
length-append [] ys = omega arith
length-append (x ∷ xs) ys = omega (arith, length-append xs ys)
