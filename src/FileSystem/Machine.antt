-- ===== src/FileSystem/Machine.antt =====
-- The state that fs.c and disk.c of "06. File Systems" share, and runs over it.
use c_coding_examples_operat.Common.{
  ℕ, ◌^◌, ◌≡◌, ◌≢◌, refl, ltb, Bool, true, false, Option, none, some, ℤ,
}
use c_coding_examples_operat.FileSystem.Block.{Block}

-- `bitmap`, the array that `calloc` gave: its size and its cells.
pub record Bits : Type 0 where
  pub size : ℕ
  pub bit : ℕ → ℕ

-- `bitmap != NULL`
abbrev pub is_mounted : Option Bits → Bool
is_mounted none = false
is_mounted (some _) = true

-- The static variables. `blocks` is the content of `diskfile`. A count `nblocks` that is not
-- positive makes every access abort, as 0 does. With 2^19 blocks or more, disk_init multiplies beyond the
-- range of an int, which is undefined: no program comes to such a state.
pub record State : Type 0 where
  pub nblocks : ℕ
  pub sized : ltb nblocks (2 ^ 19) ≡ true
  pub blocks : ℕ → Block
  pub nreads : ℕ
  pub nwrites : ℕ
  pub bitmap : Option Bits
  pub size_bitmap : ℤ

-- `aborted` is `abort()`; `undefined` is an access out of an array or through a null pointer.
pub data Run (A : Type 0) : Type 0 where
  ok : A → State → Run A
  aborted : Run A
  undefined : Run A
  out_of_fuel : Run A

abbrev pub M : Type 0 → Type 0
M A = State → Run A

abbrev pub pure : {A : Type 0} → A → M A
pure a s = ok a s

module _ {A B : Type 0} where
  abbrev pub and_then : Run A → (A → M B) → Run B
  and_then (ok a s) k = k a s
  and_then aborted k = aborted
  and_then undefined k = undefined
  and_then out_of_fuel k = out_of_fuel

  infixl 5 ◌>>=◌ ◌>>◌
  abbrev pub ◌>>=◌ : M A → (A → M B) → M B
  ◌>>=◌ m k s = and_then (m s) k

  abbrev pub ◌>>◌ : M A → M B → M B
  m >> k = m >>= λ _. k

-- The run returns, in a state with the postcondition.
pub data Returns {A : Type 0} (P : A → State → Type 0) : Run A → Type 0 where
  returns : {a : A} {s : State} → P a s → Returns P (ok a s)

module _ {A : Type 0} {P : A → State → Type 0} where
  pub Returns-bind :
      {B : Type 0} {Q : B → State → Type 0} {r : Run A} {k : A → M B}
      → Returns P r
      → ((a : A) (s : State) → P a s → Returns Q (k a s))
      → Returns Q (and_then r k)
  Returns-bind (returns p) next = next _ _ p

  pub Returns-mono :
      {Q : A → State → Type 0} {r : Run A}
      → Returns P r
      → ((a : A) (s : State) → P a s → Q a s)
      → Returns Q r
  Returns-mono (returns p) weaken = returns (weaken _ _ p)

-- A chain of steps that do not run out of fuel does not.
pub and_then-fuel :
    {A B : Type 0} (r : Run A) (k : A → M B)
    → r ≢ out_of_fuel
    → ((a : A) (s : State) → k a s ≢ out_of_fuel)
    → and_then r k ≢ out_of_fuel
and_then-fuel (ok a s) k h next = next a s
and_then-fuel aborted k h next = λ e. cc
and_then-fuel undefined k h next = λ e. cc
and_then-fuel out_of_fuel k h next = λ e. h refl

-- Inversion of a chain that returns.
pub and_then-ok :
    {A B : Type 0} (r : Run A) (k : A → M B) {b : B} {t : State}
    → and_then r k ≡ ok b t
    → (a : A) × (s : State) × (r ≡ ok a s) × (k a s ≡ ok b t)
and_then-ok (ok a s) k h = (a, s, refl, h)
and_then-ok aborted k h = cc
and_then-ok undefined k h = cc
and_then-ok out_of_fuel k h = cc
