-- ===== src/FileSystem/Copy.antt =====
-- do_copyin and do_copyout of "06. File Systems/shell.c".
pub mod ReadOnly
pub mod Bounds
pub mod Filled
pub mod RoundTrip
use c_coding_examples_operat.Common.{
  ℕ, zero, suc, ◌+◌, ◌-◌, ◌==◌, ltb, if◌then◌else◌, ℤ, pos, negsuc, get_or, length, replicate, take,
  drop, Bool, true, false, Option, none, some, List, [], ◌∷◌, ◌++◌,
}
use c_coding_examples_operat.FileSystem.Block.{Block}
use c_coding_examples_operat.FileSystem.Machine.{ok, undefined, out_of_fuel, M, pure, ◌>>=◌}
use c_coding_examples_operat.FileSystem.Text.{Memory}
use c_coding_examples_operat.FileSystem.Read.{fs_read}
use c_coding_examples_operat.FileSystem.Write.{fs_write}

-- The size of `buffer`
abbrev pub buffer_size : ℕ
buffer_size = 16384

-- The buffer after an fread that gave `chunk`: behind it is what was there.
abbrev pub filled : List ℕ → Memory → Memory
filled chunk stale k = get_or chunk k (stale k)

-- What is done with the result of fs_write: the offset, and whether the loop goes on.
abbrev pub count_written : ℤ → ℕ → ℕ → ℕ × Bool
count_written (negsuc actual) result offset = (offset, false)
count_written (pos actual) result offset = (offset + actual, actual == result)

abbrev pub copy_next : (ℕ → M ℕ) → ℕ × Bool → M ℕ
copy_next go (offset, true) = go offset
copy_next go (offset, false) = pure offset

-- The loop of do_copyin. fread gives the next bytes of the file, as many as the buffer takes; each
-- round takes one byte or more, so the bytes of the file and one are enough rounds. `junk` is what
-- the stack holds in fs_write, at each offset.
unfoldable pub copy_in : (ℕ → Block) → ℤ → ℕ → List ℕ → Memory → ℕ → M ℕ
copy_in junk inumber zero rest stale offset = λ _. out_of_fuel
copy_in junk inumber (suc f) [] stale offset = pure offset
copy_in junk inumber (suc f) (x ∷ xs) stale offset = do
  let chunk = take buffer_size (x ∷ xs)
  actual ← fs_write (junk offset) inumber (filled chunk stale) (length chunk) offset
  copy_next (copy_in junk inumber f (drop buffer_size (x ∷ xs)) (filled chunk stale))
      (count_written actual (length chunk) offset)

-- The result, and the number of bytes that is printed. `file` is the content behind fopen, or none.
unfoldable pub do_copyin : (ℕ → Block) → Memory → Option (List ℕ) → ℤ → M (ℤ × ℕ)
do_copyin junk stale none inumber = pure (pos 0, 0)
do_copyin junk stale (some content) inumber = do
  offset ← copy_in junk inumber (length content + 1) content stale 0
  pure (pos 1, offset)

-- fs_read clears as many bytes of the buffer as it returns, and puts its text there.
abbrev pub written_out : ℕ → List ℕ → List ℕ
written_out n text = text ++ replicate (n - length text) 0

-- What is done with the result of fs_read. strncat puts a NUL behind the text, and needs a cell of
-- the buffer for it.
abbrev pub copy_round : (ℕ → List ℕ → M (ℕ × List ℕ)) → ℕ → List ℕ → ℤ × List ℕ → M (ℕ × List ℕ)
copy_round go offset out (negsuc n, text) = pure (offset, out)
copy_round go offset out (pos zero, text) = pure (offset, out)
copy_round go offset out (pos (suc n), text) =
    if ltb (length text) buffer_size
    then go (offset + suc n) (out ++ written_out (suc n) text)
    else λ _. undefined

-- The loop of do_copyout: the offset at its end, and what has been written to the file.
unfoldable pub copy_out : ℤ → ℕ → ℕ → List ℕ → M (ℕ × List ℕ)
copy_out inumber zero offset out = λ _. out_of_fuel
copy_out inumber (suc f) offset out = do
  r ← fs_read inumber buffer_size offset
  copy_round (copy_out inumber f) offset out r

-- fs_read gives nothing from byte 24576 on, so no more than 24577 rounds are made. `opened` is
-- whether fopen succeeds. The result, the number of bytes that is printed, and the bytes of the file.
unfoldable pub do_copyout : Bool → ℤ → M (ℤ × ℕ × List ℕ)
do_copyout opened inumber =
    if opened
    then (do r ← copy_out inumber 24577 0 []; pure (pos 1, r.0, r.1))
    else pure (pos 0, 0, [])
