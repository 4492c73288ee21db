-- ===== src/Copying/Tests.antt =====
-- Runs of "01. System Calls and Error Checking/filecopy.c" and treecopy.c.
use c_coding_examples_operat.Common.{
  ◌+◌, ◌==◌, ◌≡◌, refl, if◌then◌else◌, true, false, pos, none, some, [], ◌∷◌, ◌++◌, arith,
}
use c_coding_examples_operat.Common.Run.{Returns, aborted}
use c_coding_examples_operat.Copying.{System, Target, target, write_all, filecopy}
use c_coding_examples_operat.Copying.Chunks.{filecopy_lem}
use c_coding_examples_operat.Copying.Failed.{write_all-failed}
use c_coding_examples_operat.Copying.Tree.{
  file, directory, special, Entries, end, unreadable, dot, entry, Walker, nothing, success,
  treecopy,
}
use c_coding_examples_operat.Copying.Tree.Kept.{
  kept, directories, files, bytes, readable, Fits, Counted, treecopy_lem,
}

-- Each read and write is of one byte.
abbrev one_byte : System
one_byte k = some 0

-- The first call is of one byte, the second one fails, and the others are of one thousand bytes.
abbrev second_fails : System
second_fails k = if k == 0 then some 0 else if k == 1 then none else some 999

abbrev fresh : Walker
fresh = record { calls = 0; dir_count = 0; file_count = 0; byte_count = 0 }

abbrev empty : Target
empty = target 0 []

-- A directory with one file, a link, and a directory with a file
abbrev tree : Entries
tree = dot (
    entry (97 ∷ []) (file (1 ∷ 2 ∷ 3 ∷ [])) (
      entry (98 ∷ []) special
        (dot (entry (99 ∷ []) (directory (entry (97 ∷ []) (file (4 ∷ [])) end)) end))))

abbrev broken : Entries
broken = entry (97 ∷ []) (file (1 ∷ [])) unreadable

filecopy_lem_example :
    Returns
      (λ r u. (r ≡ some 3) × (u.front ++ u.behind ≡ 1 ∷ 2 ∷ 3 ∷ 9 ∷ []))
      (filecopy one_byte 8193 4 (some (1 ∷ 2 ∷ 3 ∷ [])) (some (6 ∷ 7 ∷ 8 ∷ 9 ∷ [])) empty)
filecopy_lem_example =
    filecopy_lem one_byte 8193 4 (1 ∷ 2 ∷ 3 ∷ []) (6 ∷ 7 ∷ 8 ∷ 9 ∷ []) empty (λ k. (0, refl))
      (omega arith) (omega arith) (omega arith)

write_all-failed_example :
    Returns
      (λ r u. (r ≡ pos 3) × (u.front ≡ 5 ∷ 5 ∷ 6 ∷ 7 ∷ []))
      (write_all second_fails 5 (5 ∷ 6 ∷ 7 ∷ []) empty)
write_all-failed_example =
    write_all-failed second_fails 2 0 999 (5 ∷ 6 ∷ 7 ∷ []) empty (omega arith) refl refl refl
      (omega arith)

tree-kept :
    kept tree
    ≡ entry
        (97 ∷ [])
        (file (1 ∷ 2 ∷ 3 ∷ []))
        (entry (99 ∷ []) (directory (entry (97 ∷ []) (file (4 ∷ [])) end)) end)
unfolding kept
tree-kept = refl

tree-readable : readable tree ≡ true
unfolding readable
tree-readable = refl

broken-readable : readable broken ≡ false
unfolding readable
broken-readable = refl

tree-Fits : Fits (1 + directories tree) (files tree) (bytes tree) fresh
unfolding directories files bytes
tree-Fits = record { dirs = omega arith; count = omega arith; size = omega arith }

broken-Fits : Fits (1 + directories broken) (files broken) (bytes broken) fresh
unfolding directories files bytes
broken-Fits = record { dirs = omega arith; count = omega arith; size = omega arith }

treecopy_lem_example :
    (readable tree ≡ true
      → Returns
          (λ o t.
            (o ≡ success (directory (kept tree)))
            × Counted (1 + directories tree) (files tree) (bytes tree) fresh t)
          (treecopy one_byte 8193 9 (some (directory tree)) nothing fresh))
    × (readable tree ≡ false
        → treecopy one_byte 8193 9 (some (directory tree)) nothing fresh ≡ aborted)
treecopy_lem_example =
    treecopy_lem one_byte 8193 9 tree fresh (λ k. (0, refl)) (omega arith)
      (omega arith, ((omega arith, tt), tt)) tree-Fits

treecopy-broken : treecopy one_byte 8193 9 (some (directory broken)) nothing fresh ≡ aborted
treecopy-broken =
    (treecopy_lem one_byte 8193 9 broken fresh (λ k. (0, refl)) (omega arith) (omega arith, tt)
        broken-Fits).1
      broken-readable
