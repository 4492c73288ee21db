-- ===== src/JobScheduler/Shell/Commands.antt =====
-- The reading of a line and the commands in main of "04. Job Scheduler/jobsched.c".
use c_coding_examples_operat.Common.{
  ℕ, ◌+◌, ◌-◌, ◌*◌, ◌%◌, ◌^◌, ◌==◌, ltb, leb, if◌then◌else◌, Bool, true, false, not, ◌&&◌, ◌||◌, ℤ,
  pos, negsuc, ltb_ℤ, Option, none, some, List, [], ◌∷◌, length,
}
use mathlib.Core.Option.{map}
use c_coding_examples_operat.Common.Run.{ok, undefined, M, pure, ◌>>=◌}
use c_coding_examples_operat.JobScheduler.Job.{Word, Job, Scheduler, create_job}
use c_coding_examples_operat.JobScheduler.Queue.{queue_job, set_njobs}
use c_coding_examples_operat.JobScheduler.Remove.{remove_job}
use c_coding_examples_operat.JobScheduler.Shell.{
  Place, ready, exited, find_job, after_find, drain_from,
}

-- " \t\n"
abbrev pub is_delimiter : ℕ → Bool
is_delimiter c = c == 32 || c == 9 || c == 10

abbrev pub starts_word : List ℕ → Bool
starts_word [] = false
starts_word (c ∷ cs) = not (is_delimiter c)

abbrev pub prepend : ℕ → List Word → List Word
prepend c [] = (c ∷ []) ∷ []
prepend c (w ∷ ws) = (c ∷ w) ∷ ws

-- The words that strtok gives for a line, one after the other.
unfoldable pub tokens : List ℕ → List Word
tokens [] = []
tokens (c ∷ cs) =
    let rest = tokens cs in
    if is_delimiter c then rest else if starts_word cs then prepend c rest else (c ∷ []) ∷ rest

-- The cells from `k` on, when another line has come into `line`: `text i` is what the pointer in
-- cell `i` now leads to.
unfoldable pub stale_words : (ℕ → Word) → ℕ → List (Option Word) → List (Option Word)
stale_words text k [] = []
stale_words text k (none ∷ cells) = none ∷ stale_words text (k + 1) cells
stale_words text k (some old ∷ cells) = some (text k) ∷ stale_words text (k + 1) cells

-- `words[nwords] = word`, for each word, from cell `k` on: the other cells keep their pointers. None
-- when there are more words than cells.
unfoldable pub store_words :
    (ℕ → Word) → ℕ → List Word → List (Option Word) → Option (List (Option Word))
store_words text k [] cells = some (stale_words text k cells)
store_words text k (w ∷ ws) [] = none
store_words text k (w ∷ ws) (old ∷ cells) =
    map (λ (rest : List (Option Word)). some w ∷ rest) (store_words text (k + 1) ws cells)

unfoldable pub same_string : Word → Word → Bool
same_string [] [] = true
same_string (a ∷ v) (b ∷ w) = a == b && same_string v w
same_string _ _ = false

pub data Command : Type 0 where
  submits status_of waits removes sets_njobs drains quits other : Command

-- the tests with strcmp; help and what is not a command do nothing
unfoldable pub command_of : Word → Command
command_of w =
    if same_string w (b's' ∷ b'u' ∷ b'b' ∷ b'm' ∷ b'i' ∷ b't' ∷ [])
    then submits
    else if same_string w (b's' ∷ b't' ∷ b'a' ∷ b't' ∷ b'u' ∷ b's' ∷ [])
    then status_of
    else if same_string w (b'w' ∷ b'a' ∷ b'i' ∷ b't' ∷ [])
    then waits
    else if same_string w (b'r' ∷ b'e' ∷ b'm' ∷ b'o' ∷ b'v' ∷ b'e' ∷ [])
    then removes
    else if same_string w (b'n' ∷ b'j' ∷ b'o' ∷ b'b' ∷ b's' ∷ [])
    then sets_njobs
    else if same_string w (b'd' ∷ b'r' ∷ b'a' ∷ b'i' ∷ b'n' ∷ [])
    then drains
    else if same_string w (b'q' ∷ b'u' ∷ b'i' ∷ b't' ∷ [])
    then quits
    else other

-- The digits at the beginning of a word, behind the digits that make `n`.
unfoldable pub decimal : ℕ → Word → ℕ
decimal n [] = n
decimal n (c ∷ cs) =
    let rest = decimal (n * 10 + (c - 48)) cs in if leb 48 c && leb c 57 then rest else n

-- the other characters of isspace, which strtok leaves in a word
unfoldable pub skip_spaces : Word → Word
skip_spaces [] = []
skip_spaces (c ∷ cs) = if leb 11 c && leb c 13 then skip_spaces cs else c ∷ cs

-- UINTMAX_MAX for a number that is too large
abbrev pub clip : ℕ → ℕ
clip n = if ltb n (2 ^ 64) then n else 2 ^ 64 - 1

abbrev pub negated : ℕ → ℕ
negated n = if ltb n (2 ^ 64) then (2 ^ 64 - n) % 2 ^ 64 else 2 ^ 64 - 1

abbrev pub signed_value : Word → ℕ
signed_value [] = 0
signed_value (c ∷ cs) =
    if c == b'-'
    then negated (decimal 0 cs)
    else if c == b'+'
    then clip (decimal 0 cs)
    else clip (decimal 0 (c ∷ cs))

-- the conversion to int, which keeps the lower 32 bits
abbrev pub to_int : ℕ → ℤ
to_int n = let m = n % 2 ^ 32 in if ltb m (2 ^ 31) then pos m else negsuc (2 ^ 32 - 1 - m)

-- `int id = strtoumax(words[1], NULL, 10)`
unfoldable pub number_of : Word → ℤ
number_of w = to_int (signed_value (skip_spaces w))

-- What a command that ends with `r < 0` does: main returns.
abbrev pub unless_negative : ℤ → Place
unless_negative r = if ltb_ℤ r (pos 0) then exited else ready

-- No job has a negative id.
abbrev pub remove_int : ℤ → M Scheduler ℤ
remove_int (pos id) = remove_job id
remove_int (negsuc n) = pure (pos 1)

abbrev pub find_int : ℤ → List Job → Option ℕ
find_int (pos id) js = find_job id js
find_int (negsuc n) js = none

-- The command with `words[1]`, and with the words behind `words[0]`. `commands` is the text
-- that the pointer of this name leads to.
unfoldable pub run_command :
    Word → ℕ → Option Word → List (Option Word) → Command → M Scheduler Place
run_command commands nwords none args submits = pure exited
run_command commands nwords (some w) args submits = do
  r ← (do job ← create_job commands nwords args; queue_job job)
  pure (unless_negative r)
run_command commands nwords none args waits = pure exited
run_command commands nwords (some w) args waits =
    λ s. ok (after_find (find_int (number_of w) s.jobs)) s
run_command commands nwords none args removes = pure exited
run_command commands nwords (some w) args removes = do
  r ← remove_int (number_of w)
  pure (unless_negative r)
run_command commands nwords none args sets_njobs = pure exited
run_command commands nwords (some w) args sets_njobs = do u ← set_njobs (number_of w); pure ready
run_command commands nwords arg args drains = λ s. ok (drain_from 0 s.jobs) s
run_command commands nwords arg args quits = pure exited
run_command commands nwords arg args status_of = pure ready
run_command commands nwords arg args other = pure ready

abbrev pub first_cell : List (Option Word) → Option Word
first_cell [] = none
first_cell (o ∷ cells) = o

-- `words[0]` is compared with the names of the commands.
abbrev pub run_words : Word → ℕ → List (Option Word) → M Scheduler Place
run_words commands nwords (some w ∷ args) =
    run_command commands nwords (first_cell args) args (command_of w)
run_words commands nwords _ = λ _. undefined

abbrev pub with_cells :
    Word → ℕ → Option (List (Option Word)) → M Scheduler (Place × List (Option Word))
with_cells commands nwords none = λ _. undefined
with_cells commands nwords (some cells) = do p ← run_words commands nwords cells; pure (p, cells)

-- A line, with the cells of `words` before and behind it. A line without words does nothing.
unfoldable pub main_line :
    (ℕ → Word) → Word → List ℕ → List (Option Word) → M Scheduler (Place × List (Option Word))
main_line text commands line cells =
    if length (tokens line) == 0
    then pure (ready, stale_words text 0 cells)
    else with_cells commands (length (tokens line)) (store_words text 0 (tokens line) cells)
