-- ===== src/Copying/Tree.antt =====
-- "01. System Calls and Error Checking/treecopy.c": a file, or a directory with all that is in it.
pub mod Kept
use c_coding_examples_operat.Common.{
  ℕ, zero, suc, ◌+◌, ◌^◌, ltb, if◌then◌else◌, Bool, true, false, Option, none, some, List, [], ◌∷◌,
  ◌++◌,
}
use c_coding_examples_operat.Common.Run.{
  Run, ok, aborted, undefined, out_of_fuel, M, pure, ◌>>=◌, ◌>>◌,
}
use c_coding_examples_operat.Copying.{System, Target, target, copy_loop}

-- What readdir gives for a directory: "." or "..", or the name of a file, a directory or something
-- else, up to the end or to an error.
mutual
  pub data Node : Type 0 where
    file : List ℕ → Node
    directory : Entries → Node
    special : Node

  pub data Entries : Type 0 where
    end unreadable : Entries
    dot : Entries → Entries
    entry : List ℕ → Node → Entries → Entries

-- The number of system calls so far, DIR_COUNT, FILE_COUNT and BYTE_COUNT
pub record Walker : Type 0 where
  pub calls : ℕ
  pub dir_count : ℕ
  pub file_count : ℕ
  pub byte_count : ℕ

-- Behind the loop of filecpy, which has added to BYTE_COUNT: exit(1), or the content of the
-- destination. The counts are ints.
abbrev pub finish_copy : Run Target (Option ℕ) → M Walker (List ℕ)
finish_copy (ok none u) t = aborted
finish_copy (ok (some n) u) t =
    if ltb (t.file_count + 1) (2 ^ 31)
    then ok (u.front ++ u.behind)
        (record t { calls = u.calls; file_count = t.file_count + 1; byte_count = n })
    else undefined
finish_copy aborted t = aborted
finish_copy undefined t = undefined
finish_copy out_of_fuel t = out_of_fuel

module _ (system : System) where
  -- a call that ends the program by exit(1) when it fails
  abbrev pub checked : Option ℕ → M Walker (Unit {0})
  checked none t = aborted
  checked (some n) t = ok tt (record t { calls = t.calls + 1 })

  unfoldable pub call : M Walker (Unit {0})
  call t = checked (system t.calls) t

module _ (system : System) (w f : ℕ) where
  -- filecpy: open twice, and the loop; `old` is what the destination held.
  unfoldable pub filecpy : List ℕ → List ℕ → M Walker (List ℕ)
  filecpy old content = do
    call system
    call system
    λ t. finish_copy (copy_loop system w f content t.byte_count (target t.calls old)) t

  -- opendir and mkdir at the beginning of walk
  unfoldable pub enter_directory : M Walker (Unit {0})
  enter_directory = do
    call system
    call system
    λ t.
        if ltb (t.dir_count + 1) (2 ^ 31)
        then ok tt (record t { dir_count = t.dir_count + 1 })
        else undefined

  -- The loop of walk over the entries: what it makes in the new directory. Something that is neither
  -- a directory nor a file is passed over.
  unfoldable pub walk_entries : Entries → M Walker Entries
  walk_entries end = pure end
  walk_entries unreadable = λ _. aborted
  walk_entries (dot es) = walk_entries es
  walk_entries (entry name (file content) es) = do
    copy ← filecpy [] content
    rest ← walk_entries es
    pure (entry name (file copy) rest)
  walk_entries (entry name (directory ds) es) = do
    enter_directory
    made ← walk_entries ds
    rest ← walk_entries es
    pure (entry name (directory made) rest)
  walk_entries (entry name special es) = walk_entries es

  abbrev pub walk : Entries → M Walker Entries
  walk es = do enter_directory; walk_entries es

-- What is at the destination; what is neither a directory nor a file is left out.
pub data Destination : Type 0 where
  nothing a_directory : Destination
  a_file : List ℕ → Destination

pub data Outcome : Type 0 where
  failure : Outcome
  success : Node → Outcome

module _ (system : System) (w f : ℕ) where
  -- main, with two arguments: `src` is what stat finds, or none. mkdir fails where there is a file.
  unfoldable pub treecopy : Option Node → Destination → M Walker Outcome
  treecopy src a_directory = pure failure
  treecopy none nothing = pure failure
  treecopy none (a_file old) = pure failure
  treecopy (some special) nothing = pure failure
  treecopy (some special) (a_file old) = pure failure
  treecopy (some (file content)) nothing = do
    copy ← filecpy system w f [] content
    pure (success (file copy))
  treecopy (some (file content)) (a_file old) = do
    copy ← filecpy system w f old content
    pure (success (file copy))
  treecopy (some (directory es)) nothing = do
    made ← walk system w f es
    pure (success (directory made))
  treecopy (some (directory es)) (a_file old) = do call system; λ _. aborted
