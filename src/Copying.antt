-- ===== src/Copying.antt =====
-- "01. System Calls and Error Checking": filecopy.c, silecopy.c and treecopy.c.
pub mod Chunks
pub mod Failed
mod Tests
pub mod Tree
use c_coding_examples_operat.Common.{
  ℕ, zero, suc, ◌+◌, ◌-◌, ◌^◌, ◌==◌, ltb, if◌then◌else◌, ℤ, pos, negsuc, add_nat, Option, none,
  some, List, [], ◌∷◌, ◌++◌, length, take, drop,
}
use c_coding_examples_operat.Common.Run.{M, ok, undefined, out_of_fuel, pure, ◌>>=◌}

-- What the operating system does at each call: none when the call fails. Otherwise, a read or a write
-- is of as many bytes and one, or of as many as there are when there are less.
abbrev pub System : Type 0
System = ℕ → Option ℕ

-- The number of calls so far, and the file that is written: what is in front of its offset, and what
-- it held before behind that. open has no O_TRUNC.
pub record Target : Type 0 where
  pub calls : ℕ
  pub front : List ℕ
  pub behind : List ℕ

abbrev pub buffer_size : ℕ
buffer_size = 8192

abbrev pub least : ℕ → ℕ → ℕ
least a b = if ltb a b then a else b

-- `a + b` for two ints
abbrev pub plus : ℤ → ℤ → ℤ
plus a (pos n) = add_nat a n
plus (pos zero) (negsuc n) = negsuc n
plus (pos (suc m)) (negsuc zero) = pos m
plus (pos (suc m)) (negsuc (suc n)) = plus (pos m) (negsuc n)
plus (negsuc m) (negsuc n) = negsuc (suc (m + n))

-- the file that has just been opened
abbrev pub target : ℕ → List ℕ → Target
target calls old = record { calls = calls; front = []; behind = old }

module _ (system : System) where
  -- write(wfd, buffer, count), for the bytes of the buffer: the result
  abbrev pub written : Option ℕ → List ℕ → M Target ℤ
  written none bytes t = ok (negsuc 0) (record t { calls = t.calls + 1 })
  written (some n) bytes t =
      let count = least (n + 1) (length bytes) in
      ok (pos count) (record {
        calls = t.calls + 1;
        front = t.front ++ take count bytes;
        behind = drop count t.behind;
      })

  unfoldable pub write : List ℕ → M Target ℤ
  write bytes t = written (system t.calls) bytes t

  -- `while (nwritten != nread) nwritten += write(wfd, buffer + nwritten, nread - nwritten);`, on
  -- fuel. A negative `nwritten` leads in front of the buffer.
  unfoldable pub write_rest : ℕ → List ℕ → ℤ → M Target ℤ
  write_rest zero bytes nwritten = λ _. out_of_fuel
  write_rest (suc f) bytes (negsuc n) = λ _. undefined
  write_rest (suc f) bytes (pos n) =
      if n == length bytes
      then pure (pos n)
      else (do r ← write (drop n bytes); write_rest f bytes (plus (pos n) r))

  unfoldable pub write_all : ℕ → List ℕ → M Target ℤ
  write_all f bytes = do nwritten ← write bytes; write_rest f bytes nwritten

  -- read(rfd, buffer, BUFSIZ), where `rest` is what is left of the source: the result
  abbrev pub read : List ℕ → Option ℕ → ℤ
  read rest none = negsuc 0
  read rest (some n) = pos (least (least (n + 1) buffer_size) (length rest))

  -- Behind the writes of a round: `accumulated` is an int; `if(nwritten < 0)`, for an error, comes behind the loop.
  abbrev pub accumulate : (ℕ → M Target (Option ℕ)) → ℕ → ℤ → M Target (Option ℕ)
  accumulate go accumulated (pos k) =
      if ltb (accumulated + k) (2 ^ 31) then go (accumulated + k) else (λ _. undefined)
  accumulate go accumulated (negsuc k) = pure none

  -- What follows a read: none for a read that failed, `accumulated` at the end of the source, or the
  -- next round.
  abbrev pub copy_read :
      (List ℕ → ℕ → M Target (Option ℕ)) → ℕ → List ℕ → ℕ → ℤ → M Target (Option ℕ)
  copy_read go f rest accumulated (negsuc n) = pure none
  copy_read go f rest accumulated (pos zero) = pure (some accumulated)
  copy_read go f rest accumulated (pos (suc n)) = do
    nwritten ← write_all f (take (suc n) rest)
    accumulate (go (drop (suc n) rest)) accumulated nwritten

  -- One round, at the result of the read
  abbrev pub copy_round : (List ℕ → ℕ → M Target (Option ℕ)) → ℕ → List ℕ → ℕ → M Target (Option ℕ)
  copy_round go w rest accumulated t =
      copy_read go w rest accumulated (read rest (system t.calls))
        (record t { calls = t.calls + 1 })

  -- The loop of reads, with `accumulated`; the first fuel is that of each loop of writes.
  unfoldable pub copy_loop : ℕ → ℕ → List ℕ → ℕ → M Target (Option ℕ)
  copy_loop w zero rest accumulated = λ _. out_of_fuel
  copy_loop w (suc f) rest accumulated = copy_round (copy_loop w f) w rest accumulated

  -- open(src) and open(dst) in main of filecopy.c: the content of the source, and what is at the
  -- destination, or none where the call fails. The result is EXIT_FAILURE, or the number of bytes
  -- that is printed before EXIT_SUCCESS, with the destination behind it.
  unfoldable pub filecopy : ℕ → ℕ → Option (List ℕ) → Option (List ℕ) → M Target (Option ℕ)
  filecopy w f none dst t = ok none t
  filecopy w f (some src) none t = ok none t
  filecopy w f (some src) (some old) t = copy_loop w f src 0 (target t.calls old)
