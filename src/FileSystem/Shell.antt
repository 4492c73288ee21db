-- ===== src/FileSystem/Shell.antt =====
-- The commands of main of "06. File Systems/shell.c".
pub mod Parse
pub mod Session
pub mod ReadOnly
pub mod RoundTrip
mod Tests
use c_coding_examples_operat.Common.{
  ℕ, ◌==◌, if◌then◌else◌, Bool, ltb_ℤ, ℤ, pos, negsuc, is_zero, Option, none, some, List, [], ◌∷◌,
}
use c_coding_examples_operat.FileSystem.Block.{Block}
use c_coding_examples_operat.FileSystem.Machine.{undefined, M, pure, ◌>>=◌}
use c_coding_examples_operat.FileSystem.Text.{Memory}
use c_coding_examples_operat.FileSystem.Format.{fs_format}
use c_coding_examples_operat.FileSystem.Mount.{fs_mount}
use c_coding_examples_operat.FileSystem.Debug.{Line, fs_debug}
use c_coding_examples_operat.FileSystem.Table.{fs_create, fs_delete, fs_getsize}
use c_coding_examples_operat.FileSystem.Copy.{do_copyin, do_copyout}
use c_coding_examples_operat.FileSystem.Shell.Parse.{Word, Words, same_word, atoi}

pub data Command : Type 0 where
  format mount debug getsize create delete cat copyin copyout help quit exit unknown : Command

-- the tests with strcmp, in their order
unfoldable pub command_of : Word → Command
command_of w =
    if same_word w (b'f' ∷ b'o' ∷ b'r' ∷ b'm' ∷ b'a' ∷ b't' ∷ [])
    then format
    else if same_word w (b'm' ∷ b'o' ∷ b'u' ∷ b'n' ∷ b't' ∷ [])
    then mount
    else if same_word w (b'd' ∷ b'e' ∷ b'b' ∷ b'u' ∷ b'g' ∷ [])
    then debug
    else if same_word w (b'g' ∷ b'e' ∷ b't' ∷ b's' ∷ b'i' ∷ b'z' ∷ b'e' ∷ [])
    then getsize
    else if same_word w (b'c' ∷ b'r' ∷ b'e' ∷ b'a' ∷ b't' ∷ b'e' ∷ [])
    then create
    else if same_word w (b'd' ∷ b'e' ∷ b'l' ∷ b'e' ∷ b't' ∷ b'e' ∷ [])
    then delete
    else if same_word w (b'c' ∷ b'a' ∷ b't' ∷ [])
    then cat
    else if same_word w (b'c' ∷ b'o' ∷ b'p' ∷ b'y' ∷ b'i' ∷ b'n' ∷ [])
    then copyin
    else if same_word w (b'c' ∷ b'o' ∷ b'p' ∷ b'y' ∷ b'o' ∷ b'u' ∷ b't' ∷ [])
    then copyout
    else if same_word w (b'h' ∷ b'e' ∷ b'l' ∷ b'p' ∷ [])
    then help
    else if same_word w (b'q' ∷ b'u' ∷ b'i' ∷ b't' ∷ [])
    then quit
    else if same_word w (b'e' ∷ b'x' ∷ b'i' ∷ b't' ∷ [])
    then exit
    else unknown

-- What main prints for a command, with what the functions that it calls print for it.
pub data Reply : Type 0 where
  disk_formatted format_failed disk_mounted mount_failed : Reply
  debugged : List Line → Reply
  size_is : ℤ → ℤ → Reply
  getsize_failed create_failed delete_failed cat_failed copy_failed : Reply
  created deleted : ℤ → Reply
  shown : ℕ → List ℕ → Reply
  copied_in : Word → ℤ → ℕ → Reply
  copied_out : ℤ → Word → ℕ → Reply
  usage : Command → Reply
  commands_are unknown_command : Reply

-- The files of the host: the content behind fopen for reading, and whether fopen for writing opens.
pub record Host : Type 0 where
  pub content : Word → Option (List ℕ)
  pub writable : Word → Bool

abbrev pub with_file : Host → Word → List ℕ → Host
with_file h name bytes = record h {
  content = λ w. if same_word w name then some bytes else h.content w;
}

-- What the stack holds in the local variables of fs_format, of fs_write at each offset, and in
-- `buffer`.
pub record Locals : Type 0 where
  pub in_format : Block
  pub in_write : ℕ → Block
  pub in_buffer : Memory

-- What is printed and the host behind it, or the end of the loop.
pub data Answer : Type 0 where
  reply : Reply → Host → Answer
  leaves : Answer

-- `args == n`, or what is printed otherwise
abbrev pub with_count : ℕ → ℤ → Command → Host → M Answer → M Answer
with_count n (negsuc k) c h m = pure (reply (usage c) h)
with_count n (pos k) c h m = if k == n then m else pure (reply (usage c) h)

-- A buffer that has not been written yet, or a number that is not an int, is undefined behaviour.
abbrev pub with_word : Option Word → (Word → M Answer) → M Answer
with_word none k = λ _. undefined
with_word (some w) k = k w

abbrev pub with_int : Option ℤ → (ℤ → M Answer) → M Answer
with_int none k = λ _. undefined
with_int (some n) k = k n

-- `atoi(arg)`
abbrev pub with_number : Option Word → (ℤ → M Answer) → M Answer
with_number arg k = with_word arg λ w. with_int (atoi w) k

abbrev dev_stdout : Word
dev_stdout = b'/' ∷ b'd' ∷ b'e' ∷ b'v' ∷ b'/' ∷ b's' ∷ b't' ∷ b'd' ∷ b'o' ∷ b'u' ∷ b't' ∷ []

-- `args` and the words of the line
unfoldable pub run_command : Locals → Command → ℤ → Words → Host → M Answer
run_command l format args w h = with_count 1 args format h (do
  r ← fs_format l.in_format
  pure (reply (if is_zero r then format_failed else disk_formatted) h))
run_command l mount args w h =
    with_count 1 args mount h
      (do r ← fs_mount; pure (reply (if is_zero r then mount_failed else disk_mounted) h))
run_command l debug args w h =
    with_count 1 args debug h (do lines ← fs_debug; pure (reply (debugged lines) h))
run_command l getsize args w h = with_count 2 args getsize h (
    with_number w.arg1 λ inumber. do
      result ← fs_getsize inumber
      pure (reply (if ltb_ℤ result (pos 0) then getsize_failed else size_is inumber result) h))
run_command l create args w h = with_count 1 args create h (do
  inumber ← fs_create
  pure (reply (if ltb_ℤ (pos 0) inumber then created inumber else create_failed) h))
run_command l delete args w h = with_count 2 args delete h (
    with_number w.arg1 λ inumber. do
      r ← fs_delete inumber
      pure (reply (if is_zero r then delete_failed else deleted inumber) h))
run_command l cat args w h = with_count 2 args cat h (
    with_number w.arg1 λ inumber. do
      r ← do_copyout (h.writable dev_stdout) inumber
      pure (reply (if is_zero r.0 then cat_failed else shown r.1 r.2) h))
run_command l copyin args w h = with_count 3 args copyin h (
    with_number w.arg2 λ inumber. with_word w.arg1 λ name. do
      r ← do_copyin l.in_write l.in_buffer (h.content name) inumber
      pure (reply (if is_zero r.0 then copy_failed else copied_in name inumber r.1) h))
run_command l copyout args w h = with_count 3 args copyout h (
    with_number w.arg1 λ inumber. with_word w.arg2 λ name. do
      r ← do_copyout (h.writable name) inumber
      pure (
          if is_zero r.0
          then reply copy_failed h
          else reply (copied_out inumber name r.1) (with_file h name r.2)))
run_command l help args w h = pure (reply commands_are h)
run_command l quit args w h = pure leaves
run_command l exit args w h = pure leaves
run_command l unknown args w h = pure (reply unknown_command h)
