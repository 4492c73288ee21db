-- ===== src/FileSystem/Shell/Session.antt =====
-- The loop of main of "06. File Systems/shell.c" over the lines of the input.
use c_coding_examples_operat.Common.{
  ℕ, ◌==◌, if◌then◌else◌, ℤ, is_zero, Option, none, some, List, [], ◌∷◌, length,
}
use c_coding_examples_operat.FileSystem.Machine.{undefined, M, pure, ◌>>=◌}
use c_coding_examples_operat.FileSystem.Shell.{
  command_of, Reply, Host, Locals, Answer, reply, leaves, run_command,
}
use c_coding_examples_operat.FileSystem.Shell.Parse.{Word, Words, sscanf}

-- The variables of main that a round leaves to the next one, and the host.
pub record Shell : Type 0 where
  pub words : Words
  pub host : Host

abbrev pub main_start : Host → Shell
main_start h = record { words = record { cmd = none; arg1 = none; arg2 = none }; host = h }

-- What a round does: nothing, or it prints something, or it ends the loop.
pub data Turn : Type 0 where
  skip : Shell → Turn
  says : Reply → Shell → Turn
  ends : Turn

-- `line[strlen(line)-1] = 0`
abbrev pub drop_last : List ℕ → List ℕ
drop_last [] = []
drop_last (c ∷ []) = []
drop_last (c ∷ d ∷ cs) = c ∷ drop_last (d ∷ cs)

abbrev pub turn_of : Words → Answer → Turn
turn_of w (reply r h) = says r (record { words = w; host = h })
turn_of w leaves = ends

-- The comparisons with `cmd`, which may not have been written yet.
abbrev pub compare_cmd : Locals → Option Word → ℤ → Words → Host → M Turn
compare_cmd l none args w h = λ _. undefined
compare_cmd l (some cmd) args w h = do
  a ← run_command l (command_of cmd) args w h
  pure (turn_of w a)

abbrev pub with_words : Locals → ℤ × Words → Host → M Turn
with_words l (args, w) h =
    if is_zero args
    then pure (skip (record { words = w; host = h }))
    else compare_cmd l w.cmd args w h

-- One round. An empty string, which fgets gives for a line that begins with a NUL, makes it write
-- in front of the array.
unfoldable pub main_round : Locals → List ℕ → Shell → M Turn
main_round l [] sh = λ _. undefined
main_round l (c ∷ cs) sh =
    if c == b'\n'
    then pure (skip sh)
    else with_words l (sscanf (drop_last (c ∷ cs)) sh.words) sh.host

abbrev pub go_on : (Shell → M (List Reply)) → Turn → M (List Reply)
go_on loop (skip sh) = loop sh
go_on loop (says r sh) = do rs ← loop sh; pure (r ∷ rs)
go_on loop ends = pure []

-- The lines that fgets gives, each up to its NUL, to the end of the input; what is printed. The
-- local variables may hold other things in each round.
unfoldable pub main_loop : (ℕ → Locals) → List (List ℕ) → Shell → M (List Reply)
main_loop l [] sh = pure []
main_loop l (line ∷ lines) sh = do
  t ← main_round (l (length lines)) line sh
  go_on (main_loop l lines) t
