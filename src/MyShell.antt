-- ===== src/MyShell.antt =====
-- "02. Processes and the Shell/myshell.c": the commands start, wait, waitfor, run and watchdog.
pub mod Wait
mod Tests
use c_coding_examples_operat.Common.{
  ℕ, zero, suc, ◌+◌, ◌-◌, ◌%◌, ◌^◌, ◌==◌, ltb, if◌then◌else◌, Bool, true, false, ℤ, pos, negsuc,
  Option, none, some, List, [], ◌∷◌, ◌++◌, length,
}
use c_coding_examples_operat.Common.Run.{Run, ok, undefined, out_of_fuel, M, pure, ◌>>=◌, ◌>>◌}
use c_coding_examples_operat.JobScheduler.Job.{Word}
use c_coding_examples_operat.JobScheduler.Shell.Commands.{tokens, same_string}

-- The operating system and the C library, over a state of the processes. `fork` is given what the
-- child starts by execvp; it gives the new pid, or none. A wait gives the pid and the status of a child,
-- or none; `no_child` is errno == ECHILD behind that. `sleep` gives the seconds that are left.
pub record System (S : Type 0) : Type 0 where
  pub fork : List Word → S → Option ℕ × S
  pub wait : S → Option (ℕ × ℕ) × S
  pub waitpid : ℤ → S → Option (ℕ × ℕ) × S
  pub no_child : S → Bool
  pub kill : ℤ → S → S
  pub sleep : ℕ → S → ℕ × S
  pub atoi : Word → ℤ
  pub wexitstatus : ℕ → ℕ
  pub wtermsig : ℕ → ℕ

-- What the shell prints, but the prompt
pub data Line : Type 0 where
  unable_to_fork no_children no_such_process watchdog_entered : Line
  exited_normally exited_abnormally killed : ℤ → ℕ → Line
  exceeded : ℤ → Line
  unknown_command : Word → Line

pub data Command : Type 0 where
  starts waits waits_for runs watches unknown : Command

-- the tests with strcmp
unfoldable pub command_of : Word → Command
command_of w =
    if same_string w (b's' ∷ b't' ∷ b'a' ∷ b'r' ∷ b't' ∷ [])
    then starts
    else if same_string w (b'w' ∷ b'a' ∷ b'i' ∷ b't' ∷ [])
    then waits
    else if same_string w (b'w' ∷ b'a' ∷ b'i' ∷ b't' ∷ b'f' ∷ b'o' ∷ b'r' ∷ [])
    then waits_for
    else if same_string w (b'r' ∷ b'u' ∷ b'n' ∷ [])
    then runs
    else if same_string w (b'w' ∷ b'a' ∷ b't' ∷ b'c' ∷ b'h' ∷ b'd' ∷ b'o' ∷ b'g' ∷ [])
    then watches
    else unknown

-- the conversion of an int to unsigned int
abbrev pub to_unsigned : ℤ → ℕ
to_unsigned (pos n) = n % 2 ^ 32
to_unsigned (negsuc n) = 2 ^ 32 - 1 - n % 2 ^ 32

-- `pid`, which is -1 when fork fails
abbrev pub pid_of : Option ℕ → ℤ
pid_of none = negsuc 0
pid_of (some pid) = pos pid

abbrev pub fork_error : Option ℕ → List Line
fork_error none = unable_to_fork ∷ []
fork_error (some pid) = []

module _ {S : Type 0} (system : System S) where
  abbrev pub report : ℤ → ℕ → Line
  report pid status =
      if status == 0
      then exited_normally pid (system.wexitstatus status)
      else exited_abnormally pid (system.wexitstatus status)

  abbrev pub after_wait : Line → Option (ℕ × ℕ) × S → Run S (List Line)
  after_wait none_left (none, s) = ok (if system.no_child s then none_left ∷ [] else []) s
  after_wait none_left (some (pid, status), s) = ok (report (pos pid) status ∷ []) s

  -- the child leaves, the shell does not wait
  abbrev pub after_fork : Option ℕ × S → Run S (List Line)
  after_fork (pid, s) = ok (fork_error pid) s

  abbrev pub start : List Word → M S (List Line)
  start words s = after_fork (system.fork words s)

  abbrev pub wait_any : M S (List Line)
  wait_any s = after_wait no_children (system.wait s)

  -- atoi(words[1]), where words[1] is a null pointer when there is no second word
  unfoldable pub waitfor : List Word → M S (List Line)
  waitfor [] s = undefined
  waitfor (w ∷ ws) s = after_wait no_such_process (system.waitpid (system.atoi w) s)

  abbrev pub if_collected : M S ℕ → Option (ℕ × ℕ) × S → Run S ℕ
  if_collected again (none, s) = again s
  if_collected again (some (pid, status), s) = ok status s

  -- `while (waitpid(pid, &status, 0) < 0);` on fuel: the status
  unfoldable pub collect : ℕ → ℤ → M S ℕ
  collect zero pid s = out_of_fuel
  collect (suc f) pid s = if_collected (collect f pid) (system.waitpid pid s)

  -- the parent in run
  abbrev pub run_parent : ℕ → Option ℕ × S → Run S (List Line)
  run_parent f (pid, s) =
      (do
        status ← collect f (pid_of pid)
        pure (fork_error pid ++ (report (pid_of pid) status ∷ [])))
        s

  unfoldable pub run : ℕ → List Word → M S (List Line)
  run f words s = run_parent f (system.fork words s)

  -- Behind sleep in watchdog: zero when the time is over.
  abbrev pub watched : ℕ → ℤ → ℕ × S → Run S (List Line)
  watched f pid (zero, s) =
      (do status ← collect f pid; pure (exceeded pid ∷ killed pid (system.wtermsig status) ∷ []))
        (system.kill pid s)
  watched f pid (suc left, s) = (do status ← collect f pid; pure (report pid status ∷ [])) s

  abbrev pub watchdog_parent : ℕ → ℤ → Option ℕ × S → Run S (List Line)
  watchdog_parent f watchtime (pid, s) =
      (do
        lines ← (λ t. watched f (pid_of pid) (system.sleep (to_unsigned watchtime) t))
        pure (watchdog_entered ∷ (fork_error pid ++ lines)))
        s

  unfoldable pub watchdog : ℕ → List Word → M S (List Line)
  watchdog f [] s = undefined
  watchdog f (w ∷ words) s = watchdog_parent f (system.atoi w) (system.fork words s)

  unfoldable pub run_command : ℕ → Command → Word → List Word → M S (List Line)
  run_command f starts w words = start words
  run_command f waits w words = wait_any
  run_command f waits_for w words = waitfor words
  run_command f runs w words = run f words
  run_command f watches w words = watchdog f words
  run_command f unknown w words = pure (unknown_command w ∷ [])

  -- One line: `words` has 100 cells, of which one is for the null pointer behind the last word.
  unfoldable pub execute : ℕ → List Word → M S (List Line)
  execute f [] = pure []
  execute f (w ∷ words) =
      if ltb (suc (length words)) 100
      then run_command f (command_of w) w words
      else (λ _. undefined)

  -- The lines that fgets gives, up to the end of the input
  unfoldable pub myshell : ℕ → List (List ℕ) → M S (List Line)
  myshell f [] = pure []
  myshell f (line ∷ lines) = do
    first ← execute f (tokens line)
    rest ← myshell f lines
    pure (first ++ rest)
