-- ===== src/FileSystem/Shell/ReadOnly.antt =====
-- Sessions of "06. File Systems/shell.c" that only read.
use c_coding_examples_operat.Common.{
  ℕ, ◌==◌, ◌≡◌, refl, Bool, true, false, if◌then◌else◌, ltb_ℤ, ℤ, pos, negsuc, is_zero, Option,
  none, some, List, [], ◌∷◌, length, All, Bool-cases, inl, inr, subst, sym,
}
use c_coding_examples_operat.FileSystem.Machine.{State, M}
use c_coding_examples_operat.FileSystem.Debug.ReadOnly.{fs_debug-Quiet}
use c_coding_examples_operat.FileSystem.Copy.ReadOnly.{
  Quiet, breaks, Anything, Quiet-bind, pure-Quiet, fs_getsize-Quiet,
}
use c_coding_examples_operat.FileSystem.Copy.Bounds.{do_copyout-Quiet}
use c_coding_examples_operat.FileSystem.Shell.{
  Command, format, mount, debug, getsize, create, delete, cat, copyin, copyout, help, quit, exit,
  unknown, command_of, Reply, debugged, size_is, getsize_failed, cat_failed, shown, copy_failed,
  copied_out, usage, commands_are, unknown_command, Host, with_file, Locals, Answer, reply, leaves,
  with_count, with_word, with_int, with_number, dev_stdout, run_command,
}
use c_coding_examples_operat.FileSystem.Shell.Parse.{
  Word, Words, next_word, first_word, second_word, third_word, sscanf, atoi,
}
use c_coding_examples_operat.FileSystem.Shell.Session.{
  Shell, main_start, Turn, skip, says, ends, drop_last, turn_of, compare_cmd, with_words,
  main_round, go_on, main_loop,
}

-- debug, getsize, cat, copyout, help, quit and exit, and what is not a command
abbrev pub reads_only : Command → Bool
reads_only format = false
reads_only mount = false
reads_only create = false
reads_only delete = false
reads_only copyin = false
reads_only _ = true

with_count-Quiet :
    (n : ℕ) (args : ℤ) (c : Command) (h : Host) (m : M Answer) (s : State)
    → Quiet s Anything (m s)
    → Quiet s Anything (with_count n args c h m s)
with_count-Quiet n (negsuc k) c h m s q = pure-Quiet s (reply (usage c) h) tt
with_count-Quiet n (pos k) c h m s q = elim (Bool-cases (k == n)) [
  | inl e ↦ rw e q
  | inr e ↦ rw e (pure-Quiet s (reply (usage c) h) tt)
]

with_word-Quiet :
    (o : Option Word) (k : Word → M Answer) (s : State)
    → ((w : Word) → Quiet s Anything (k w s))
    → Quiet s Anything (with_word o k s)
with_word-Quiet none k s q = breaks
with_word-Quiet (some w) k s q = q w

with_int-Quiet :
    (o : Option ℤ) (k : ℤ → M Answer) (s : State)
    → ((n : ℤ) → Quiet s Anything (k n s))
    → Quiet s Anything (with_int o k s)
with_int-Quiet none k s q = breaks
with_int-Quiet (some n) k s q = q n

with_number-Quiet :
    (o : Option Word) (k : ℤ → M Answer) (s : State)
    → ((n : ℤ) → Quiet s Anything (k n s))
    → Quiet s Anything (with_number o k s)
with_number-Quiet o k s q =
    with_word-Quiet o (λ w. with_int (atoi w) k) s λ w. with_int-Quiet (atoi w) k s q

run_command-Quiet :
    (l : Locals) (c : Command) (args : ℤ) (w : Words) (h : Host) (s : State)
    → reads_only c ≡ true
    → Quiet s Anything (run_command l c args w h s)
unfolding run_command
run_command-Quiet l format args w h s r = cc
run_command-Quiet l mount args w h s r = cc
run_command-Quiet l create args w h s r = cc
run_command-Quiet l delete args w h s r = cc
run_command-Quiet l copyin args w h s r = cc
run_command-Quiet l debug args w h s r =
    with_count-Quiet 1 args debug h _ s
      (Quiet-bind s _ (fs_debug-Quiet s) λ lines t a. pure-Quiet t (reply (debugged lines) h) tt)
run_command-Quiet l getsize args w h s r = with_count-Quiet 2 args getsize h _ s (
    with_number-Quiet w.arg1 _ s λ n. Quiet-bind s _ (fs_getsize-Quiet n s) λ result t a.
      pure-Quiet t (reply (if ltb_ℤ result (pos 0) then getsize_failed else size_is n result) h) tt)
run_command-Quiet l cat args w h s r = with_count-Quiet 2 args cat h _ s (
    with_number-Quiet w.arg1 _ s λ n.
      Quiet-bind s _ (do_copyout-Quiet (h.writable dev_stdout) n s) λ result t a.
        pure-Quiet t (reply (if is_zero result.0 then cat_failed else shown result.1 result.2) h)
          tt)
run_command-Quiet l copyout args w h s r = with_count-Quiet 3 args copyout h _ s (
    with_number-Quiet w.arg1 _ s λ n. with_word-Quiet w.arg2 _ s λ name.
      Quiet-bind s _ (do_copyout-Quiet (h.writable name) n s) λ result t a.
        pure-Quiet t
          (if is_zero result.0
            then reply copy_failed h
            else reply (copied_out n name result.1) (with_file h name result.2))
          tt)
run_command-Quiet l help args w h s r = pure-Quiet s (reply commands_are h) tt
run_command-Quiet l quit args w h s r = pure-Quiet s leaves tt
run_command-Quiet l exit args w h s r = pure-Quiet s leaves tt
run_command-Quiet l unknown args w h s r = pure-Quiet s (reply unknown_command h) tt

-- The command of a line, if it has a word, only reads.
abbrev pub LineReads : Option (Word × List ℕ) → Type 0
LineReads none = Unit {0}
LineReads (some (w, rest)) = reads_only (command_of w) ≡ true

-- The last command, if there was one, only reads.
abbrev CmdReads : Option Word → Type 0
CmdReads none = Unit {0}
CmdReads (some w) = reads_only (command_of w) ≡ true

third_word-cmd : (o : Option (Word × List ℕ)) (w : Words) → (third_word o w).1.cmd ≡ w.cmd
third_word-cmd none w = refl
third_word-cmd (some (v, rest)) w = refl

second_word-cmd : (o : Option (Word × List ℕ)) (w : Words) → (second_word o w).1.cmd ≡ w.cmd
second_word-cmd none w = refl
second_word-cmd (some (v, rest)) w = third_word-cmd (next_word rest) (record w { arg1 = some v })

first_word-CmdReads :
    (o : Option (Word × List ℕ)) (w : Words)
    → LineReads o
    → CmdReads w.cmd
    → CmdReads (first_word o w).1.cmd
first_word-CmdReads none w l c = c
first_word-CmdReads (some (v, rest)) w l c =
    subst CmdReads (sym (second_word-cmd (next_word rest) (record w { cmd = some v }))) l

-- Behind a round, the last command still only reads.
abbrev TurnReads : Turn → Type 0
TurnReads (skip sh) = CmdReads sh.words.cmd
TurnReads (says r sh) = CmdReads sh.words.cmd
TurnReads ends = Unit {0}

turn_of-TurnReads : (w : Words) (a : Answer) → CmdReads w.cmd → TurnReads (turn_of w a)
turn_of-TurnReads w (reply r h) c = c
turn_of-TurnReads w leaves c = tt

compare_cmd-Quiet :
    (l : Locals) (cmd : Option Word) (args : ℤ) (w : Words) (h : Host) (s : State)
    → CmdReads cmd
    → CmdReads w.cmd
    → Quiet s TurnReads (compare_cmd l cmd args w h s)
compare_cmd-Quiet l none args w h s c d = breaks
compare_cmd-Quiet l (some cmd) args w h s c d =
    Quiet-bind s _ (run_command-Quiet l (command_of cmd) args w h s c)
      λ a t p. pure-Quiet t (turn_of w a) (turn_of-TurnReads w a d)

with_words-Quiet :
    (l : Locals) (r : ℤ × Words) (h : Host) (s : State)
    → CmdReads r.1.cmd
    → Quiet s TurnReads (with_words l r h s)
with_words-Quiet l (args, w) h s c = elim (Bool-cases (is_zero args)) [
  | inl e ↦ rw e (pure-Quiet s (skip (record { words = w; host = h })) c)
  | inr e ↦ rw e (compare_cmd-Quiet l w.cmd args w h s c c)
]

main_round-Quiet :
    (l : Locals) (line : List ℕ) (sh : Shell) (s : State)
    → LineReads (next_word (drop_last line))
    → CmdReads sh.words.cmd
    → Quiet s TurnReads (main_round l line sh s)
unfolding main_round sscanf
main_round-Quiet l [] sh s r c = breaks
main_round-Quiet l (x ∷ xs) sh s r c = elim (Bool-cases (x == b'\n')) [
  | inl e ↦ rw e (pure-Quiet s (skip sh) c)
  | inr e ↦ rw e (
      with_words-Quiet l (first_word (next_word (drop_last (x ∷ xs))) sh.words) sh.host s
        (first_word-CmdReads (next_word (drop_last (x ∷ xs))) sh.words r c))
]

go_on-Quiet :
    (loop : Shell → M (List Reply)) (t : Turn) (s : State)
    → ((sh : Shell) (u : State) → CmdReads sh.words.cmd → Quiet u Anything (loop sh u))
    → TurnReads t
    → Quiet s Anything (go_on loop t s)
go_on-Quiet loop (skip sh) s q c = q sh s c
go_on-Quiet loop (says r sh) s q c = Quiet-bind s _ (q sh s c) λ rs v p. pure-Quiet v (r ∷ rs) tt
go_on-Quiet loop ends s q c = pure-Quiet s [] tt

main_loop-CmdReads :
    (l : ℕ → Locals) (lines : List (List ℕ)) (sh : Shell) (s : State)
    → All (λ (line : List ℕ). LineReads (next_word (drop_last line))) lines
    → CmdReads sh.words.cmd
    → Quiet s Anything (main_loop l lines sh s)
unfolding main_loop
main_loop-CmdReads l [] sh s a c = pure-Quiet s [] tt
main_loop-CmdReads l (line ∷ lines) sh s (r, a) c =
    Quiet-bind s _ (main_round-Quiet (l (length lines)) line sh s r c) λ t u d.
      go_on-Quiet (main_loop l lines) t u (λ sh' v e. main_loop-CmdReads l lines sh' v a e) d

-- A session from the start of main, of which each line has a command that only reads, or no word at
-- all: whatever is on the disk, the session comes to its end, or abort() ends it, or it reaches
-- undefined behaviour, such as a write behind the buffer of cat or copyout; it does not go on for good.
-- When it comes to its end, the content of the disk, its size and the bitmap are as they were.
pub main_loop-Quiet :
    (l : ℕ → Locals) (lines : List (List ℕ)) (h : Host) (s : State)
    → All (λ (line : List ℕ). LineReads (next_word (drop_last line))) lines
    → Quiet s Anything (main_loop l lines (main_start h) s)
main_loop-Quiet l lines h s a = main_loop-CmdReads l lines (main_start h) s a tt
