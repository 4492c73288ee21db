-- ===== src/Common/Run.antt =====
-- Runs of C code over a state `S`, and their chains.
use mathlib.Core.Path.{◌≡◌}

-- `aborted` is abort() or exit(); `undefined` is an access out of an array or through a null
-- pointer.
pub data Run (S A : Type 0) : Type 0 where
  ok : A → S → Run S A
  aborted : Run S A
  undefined : Run S A
  out_of_fuel : Run S A

abbrev pub M : Type 0 → Type 0 → Type 0
M S A = S → Run S A

module _ {S : Type 0} where
  abbrev pub pure : {A : Type 0} → A → M S A
  pure a s = ok a s

  abbrev pub and_then : {A B : Type 0} → Run S A → (A → M S B) → Run S B
  and_then (ok a s) k = k a s
  and_then aborted k = aborted
  and_then undefined k = undefined
  and_then out_of_fuel k = out_of_fuel

  infixl 5 ◌>>=◌ ◌>>◌
  abbrev pub ◌>>=◌ : {A B : Type 0} → M S A → (A → M S B) → M S B
  ◌>>=◌ m k s = and_then (m s) k

  abbrev pub ◌>>◌ : {A B : Type 0} → M S A → M S B → M S B
  m >> k = m >>= λ _. k

-- The run returns, in a state with the postcondition.
pub data Returns {S A : Type 0} (P : A → S → Type 0) : Run S A → Type 0 where
  returns : {a : A} {s : S} → P a s → Returns P (ok a s)

module _ {S A : Type 0} {P : A → S → Type 0} where
  pub Returns-bind :
      {B : Type 0} {Q : B → S → Type 0} {r : Run S A} {k : A → M S B}
      → Returns P r
      → ((a : A) (s : S) → P a s → Returns Q (k a s))
      → Returns Q (and_then r k)
  Returns-bind (returns p) next = next _ _ p

  pub Returns-mono :
      {Q : A → S → Type 0} {r : Run S A}
      → Returns P r
      → ((a : A) (s : S) → P a s → Q a s)
      → Returns Q r
  Returns-mono (returns p) weaken = returns (weaken _ _ p)

  pub Returns-aborted :
      {B : Type 0} {r : Run S A} {k : A → M S B}
      → Returns P r
      → ((a : A) (s : S) → P a s → k a s ≡ aborted)
      → and_then r k ≡ aborted
  Returns-aborted (returns p) next = next _ _ p
