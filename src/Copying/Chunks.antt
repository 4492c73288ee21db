-- ===== src/Copying/Chunks.antt =====
-- The loops of "01. System Calls and Error Checking/filecopy.c", where no call fails.
use c_coding_examples_operat.Common.{
  ℕ, zero, suc, ◌+◌, ◌^◌, ◌==◌, ◌≤◌, ◌<◌, ◌≡◌, refl, sym, pos, Option, some, List, [], ◌∷◌, ◌++◌,
  length, take, drop, arith, ap, ◌∙◌, subst, Bool-cases, inl, inr, lt→ltb,
}
use mathlib.Core.List.{append-nil, append_assoc}
use c_coding_examples_operat.Common.Pieces.{
  take-drop, drop-drop, take-more, take-length, length-drop, length-take, length-append,
}
use c_coding_examples_operat.Common.Run.{M, Returns, returns, Returns-bind, Returns-mono}
use c_coding_examples_operat.Copying.{
  System, Target, buffer_size, least, write, write_rest, write_all, copy_read, copy_loop, target,
  filecopy,
}

-- `bytes` have been written to the target.
pub record Wrote (bytes : List ℕ) (s t : Target) : Type 0 where
  pub front : t.front ≡ s.front ++ bytes
  pub behind : t.behind ≡ drop (length bytes) s.behind

Wrote-refl : (s t : Target) → t.front ≡ s.front → t.behind ≡ s.behind → Wrote [] s t
Wrote-refl s t e f = record { front = e ∙ sym (append-nil s.front); behind = f }

Wrote-trans : (xs ys : List ℕ) (s t u : Target) → Wrote xs s t → Wrote ys t u → Wrote (xs ++ ys) s u
Wrote-trans xs ys s t u a b = record {
  front = b.front ∙ ap (λ (zs : List ℕ). zs ++ ys) a.front ∙ append_assoc s.front xs ys;
  behind =
      b.behind
      ∙ ap (drop (length ys)) a.behind
      ∙ drop-drop (length ys) (length xs) s.behind
      ∙ ap (λ (n : ℕ). drop n s.behind) (sym (length-append xs ys));
}

-- No call fails.
abbrev pub Works : System → Type 0
Works system = (k : ℕ) → (n : ℕ) × (system k ≡ some n)

module _ (system : System) (works : Works system) where
  write-Wrote :
      (bytes : List ℕ) (t : Target)
      → 0 < length bytes
      → Returns
          (λ r u. (n : ℕ) × (r ≡ pos n) × (0 < n) × (n ≤ length bytes) × Wrote (take n bytes) t u)
          (write system bytes t)
  unfolding write
  write-Wrote bytes t h =
      let (m, e) = works t.calls in
      let n : ℕ = least (m + 1) (length bytes) in
      let some_bytes : 0 < least (m + 1) (length bytes) = ground arith in
      let few : least (m + 1) (length bytes) ≤ length bytes = ground arith in
      rw e (
        returns (
          n,
          refl,
          some_bytes,
          few,
          record {
            front = refl;
            behind = ap (λ (k : ℕ). drop k t.behind) (sym (length-take n bytes few));
          },
        ))

  -- With `n` bytes of the chunk written, the others follow.
  write_rest-Wrote :
      (f : ℕ) (bytes : List ℕ) (n : ℕ) (s t : Target)
      → n ≤ length bytes
      → length bytes < f + n
      → Wrote (take n bytes) s t
      → Returns
          (λ r u. (r ≡ pos (length bytes)) × Wrote bytes s u)
          (write_rest system f bytes (pos n) t)
  unfolding write_rest
  write_rest-Wrote zero bytes n s t h l w = absurd (omega arith)
  write_rest-Wrote (suc f) bytes n s t h l w = elim (Bool-cases (n == length bytes)) [
    | inl e ↦
        let all : n ≡ length bytes = ground (arith, e) in
        rw e (
          returns (
            ap pos all,
            subst (λ (xs : List ℕ). Wrote xs s t)
                (ap (λ (k : ℕ). take k bytes) all ∙ take-length bytes) w,
          ))
    | inr e ↦
        let more : n < length bytes = ground (arith, e) in
        rw e (
          Returns-bind (write-Wrote (drop n bytes) t (omega (arith, length-drop n bytes)))
            λ r u (m, q, some_bytes, few, v). rw q (
              write_rest-Wrote f bytes (n + m) s u (omega (arith, length-drop n bytes, few))
                (omega arith)
                (subst (λ (xs : List ℕ). Wrote xs s u) (take-more n m bytes)
                  (Wrote-trans (take n bytes) (take m (drop n bytes)) s t u w v))))
  ]

  write_all-Wrote :
      (f : ℕ) (bytes : List ℕ) (t : Target)
      → 0 < length bytes
      → length bytes < f
      → Returns (λ r u. (r ≡ pos (length bytes)) × Wrote bytes t u) (write_all system f bytes t)
  unfolding write_all
  write_all-Wrote f bytes t h l =
      Returns-bind (write-Wrote bytes t h)
        λ r u (n, q, some_bytes, few, v). rw q (write_rest-Wrote f bytes n t u few (omega arith) v)

  -- What follows a read of `n` bytes, if the next round does what it has to.
  copy_read-Wrote :
      (go : List ℕ → ℕ → M Target (Option ℕ)) (w : ℕ) (rest : List ℕ) (accumulated n : ℕ)
      (s t : Target)
      → t.front ≡ s.front
      → t.behind ≡ s.behind
      → buffer_size < w
      → n ≤ buffer_size
      → n ≤ length rest
      → (0 < length rest → 0 < n)
      → accumulated + length rest < 2 ^ 31
      → ((more : List ℕ) (a : ℕ) (u : Target)
          → length more < length rest
          → a + length more < 2 ^ 31
          → Returns (λ r v. (r ≡ some (a + length more)) × Wrote more u v) (go more a u))
      → Returns
          (λ r u. (r ≡ some (accumulated + length rest)) × Wrote rest s u)
          (copy_read system go w rest accumulated (pos n) t)
  copy_read-Wrote go w [] accumulated zero s t a b h l k some_bytes fits next =
      returns
        (ap some (let e : accumulated ≡ accumulated + 0 = omega arith in e), Wrote-refl s t a b)
  copy_read-Wrote go w (x ∷ xs) accumulated zero s t a b h l k some_bytes fits next =
      absurd (omega (arith, some_bytes (omega arith)))
  copy_read-Wrote go w rest accumulated (suc n) s t a b h l k some_bytes fits next =
      let size : length (take (suc n) rest) ≡ suc n = length-take (suc n) rest k in
      Returns-bind
        (write_all-Wrote w (take (suc n) rest) t (omega (arith, size)) (omega (arith, size)))
        λ r u (e, v).
          rw (e, lt→ltb (accumulated + length (take (suc n) rest)) (2 ^ 31) (omega (arith, size)))
            (Returns-mono
              (next (drop (suc n) rest) (accumulated + length (take (suc n) rest)) u
                (omega (arith, length-drop (suc n) rest))
                (omega (arith, size, length-drop (suc n) rest)))
              λ q z (f, y). (
                f ∙ ap some (omega (arith, size, length-drop (suc n) rest)),
                subst (λ (ys : List ℕ). Wrote ys s z) (take-drop (suc n) rest)
                    (Wrote-trans (take (suc n) rest) (drop (suc n) rest) s u z (moved v) y),
              ))
    where
      moved : {u : Target} → Wrote (take (suc n) rest) t u → Wrote (take (suc n) rest) s u
      moved v = record {
        front = v.front ∙ ap (λ (ys : List ℕ). ys ++ take (suc n) rest) a;
        behind = v.behind ∙ ap (drop (length (take (suc n) rest))) b;
      }

  -- The rounds of the loop copy what is left of the source.
  pub copy_loop-Wrote :
      (w f : ℕ) (rest : List ℕ) (accumulated : ℕ) (t : Target)
      → buffer_size < w
      → length rest < f
      → accumulated + length rest < 2 ^ 31
      → Returns
          (λ r u. (r ≡ some (accumulated + length rest)) × Wrote rest t u)
          (copy_loop system w f rest accumulated t)
  unfolding copy_loop
  copy_loop-Wrote w zero rest accumulated t h l fits = absurd (omega arith)
  copy_loop-Wrote w (suc f) rest accumulated t h l fits =
      let (m, e) = works t.calls in
      let n : ℕ = least (least (m + 1) buffer_size) (length rest) in
      let small : least (least (m + 1) buffer_size) (length rest) ≤ buffer_size = ground arith in
      let few : least (least (m + 1) buffer_size) (length rest) ≤ length rest = ground arith in
      let some_bytes : 0 < length rest → 0 < least (least (m + 1) buffer_size) (length rest) =
        λ r. ground arith in
      rw e (
        copy_read-Wrote (copy_loop system w f) w rest accumulated n t
          (record t { calls = t.calls + 1 }) refl refl h small few some_bytes fits
          λ more a u k bound. copy_loop-Wrote w f more a u h (omega arith) bound)

-- Where both files can be opened and no read or write fails, however short those are, and the source has
-- less than 2^31 bytes: filecopy ends
-- with success and prints the length of the source. The destination then begins with the source; what
-- it held before behind that is still there, since it is opened without O_TRUNC. Fuel above the size of
-- the buffer and above the length of the source is enough.
pub filecopy_lem :
    (system : System) (w f : ℕ) (src old : List ℕ) (t : Target)
    → Works system
    → buffer_size < w
    → length src < f
    → length src < 2 ^ 31
    → Returns
        (λ r u. (r ≡ some (length src)) × (u.front ++ u.behind ≡ src ++ drop (length src) old))
        (filecopy system w f (some src) (some old) t)
unfolding filecopy
filecopy_lem system w f src old t works h l fits =
    Returns-mono (copy_loop-Wrote system works w f src 0 (target t.calls old) h l (omega arith))
      λ r u (e, v). (
        e ∙ ap some (omega arith),
        ap (λ (xs : List ℕ). xs ++ u.behind) v.front ∙ ap (λ (xs : List ℕ). src ++ xs) v.behind,
      )
