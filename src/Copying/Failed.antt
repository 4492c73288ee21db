-- ===== src/Copying/Failed.antt =====
-- Writes that fail in "01. System Calls and Error Checking/filecopy.c".
use c_coding_examples_operat.Common.{
  ℕ, suc, ◌+◌, ◌==◌, ◌≤◌, ◌<◌, ◌≡◌, refl, true, false, pos, negsuc, none, some, List, ◌++◌, length,
  take, drop, arith, ap, ◌∙◌,
}
use mathlib.Core.List.{append_assoc}
use c_coding_examples_operat.Common.Pieces.{take-length, length-drop}
use c_coding_examples_operat.Common.Run.{ok, undefined, and_then, Returns, returns}
use c_coding_examples_operat.Copying.{System, Target, least, plus, write, write_rest, write_all}

module _ (system : System) where
  write-failed :
      (bytes : List ℕ) (t : Target)
      → system t.calls ≡ none
      → write system bytes t ≡ ok (negsuc 0) (record t { calls = t.calls + 1 })
  unfolding write
  write-failed bytes t e = rw e refl

  write-count :
      (bytes : List ℕ) (t : Target) (m n : ℕ)
      → system t.calls ≡ some m
      → least (m + 1) (length bytes) ≡ n
      → write system bytes t
        ≡ ok (pos n) (record {
          calls = t.calls + 1;
          front = t.front ++ take n bytes;
          behind = drop n t.behind;
        })
  unfolding write
  write-count bytes t m n e c = rw (e, c) refl

  write_rest-more :
      (f : ℕ) (bytes : List ℕ) (n : ℕ) (t : Target)
      → n < length bytes
      → write_rest system (suc f) bytes (pos n) t
        ≡ and_then (write system (drop n bytes) t) (λ r. write_rest system f bytes (plus (pos n) r))
  unfolding write_rest
  write_rest-more f bytes n t h = let e : (n == length bytes) ≡ false = ground arith in rw e refl

  write_rest-done :
      (f : ℕ) (bytes : List ℕ) (t : Target)
      → write_rest system (suc f) bytes (pos (length bytes)) t ≡ ok (pos (length bytes)) t
  unfolding write_rest
  write_rest-done f bytes t =
      let e : (length bytes == length bytes) ≡ true = ground arith in rw e refl

  -- Where the first write of a chunk fails, the loop goes on in front of the buffer.
  write_all-undefined :
      (f : ℕ) (bytes : List ℕ) (t : Target)
      → system t.calls ≡ none
      → write_all system (suc f) bytes t ≡ undefined
  unfolding write_all
  write_all-undefined f bytes t e = rw (write-failed bytes t e) (unfold write_rest in refl)

  -- The loop of writes does not see that a write has failed. When the first write of a chunk was short,
  -- the second one fails, and the third one writes all it is given, then the loop ends with the number
  -- of the bytes of the chunk, as if all were well, but the last byte of the first write is in the file
  -- twice.
  pub write_all-failed :
      (f n k : ℕ) (bytes : List ℕ) (t : Target)
      → n + 1 < length bytes
      → system t.calls ≡ some n
      → system (t.calls + 1) ≡ none
      → system (t.calls + 2) ≡ some k
      → length bytes ≤ k
      → Returns
          (λ r u.
            (r ≡ pos (length bytes)) × (u.front ≡ t.front ++ (take (suc n) bytes ++ drop n bytes)))
          (write_all system (suc (suc (suc f))) bytes t)
  unfolding write_all
  write_all-failed f n k bytes t h e g i l =
      let first : Target = record {
        calls = t.calls + 1;
        front = t.front ++ take (suc n) bytes;
        behind = drop (suc n) t.behind;
      } in
      let second : Target = record first { calls = t.calls + 1 + 1 } in
      let third : system (t.calls + 1 + 1) ≡ some k = ap system (omega arith) ∙ i in
      let rest : least (k + 1) (length (drop n bytes)) ≡ length (drop n bytes) =
        ground (arith, length-drop n bytes) in
      let short : least (n + 1) (length bytes) ≡ suc n = ground arith in
      let total : n + length (drop n bytes) ≡ length bytes = omega (arith, length-drop n bytes) in
      rw
        (
          write-count bytes t n (suc n) e short,
          write_rest-more (suc (suc f)) bytes (suc n) first (omega arith),
          write-failed (drop (suc n) bytes) first g,
          write_rest-more (suc f) bytes n second (omega arith),
          write-count (drop n bytes) second k (length (drop n bytes)) third rest,
          total,
          write_rest-done f bytes (record {
            calls = t.calls + 1 + 1 + 1;
            front = t.front ++ take (suc n) bytes ++ take (length (drop n bytes)) (drop n bytes);
            behind = drop (length (drop n bytes)) (drop (suc n) t.behind);
          }),
        )
        (returns (
          refl,
          append_assoc t.front (take (suc n) bytes) (take (length (drop n bytes)) (drop n bytes))
              ∙ ap (λ (xs : List ℕ). t.front ++ (take (suc n) bytes ++ xs))
                  (take-length (drop n bytes)),
        ))
