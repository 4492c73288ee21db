-- ===== src/MyShell/Tests.antt =====
-- Runs of "02. Processes and the Shell/myshell.c".
use c_coding_examples_operat.Common.{
  ℕ, zero, suc, ◌==◌, ◌<◌, ◌≡◌, refl, pos, negsuc, Option, none, some, [], ◌∷◌, arith,
}
use c_coding_examples_operat.Common.Run.{ok, out_of_fuel}
use c_coding_examples_operat.MyShell.{
  System, watchdog_entered, unable_to_fork, exited_normally, exited_abnormally, exceeded, killed,
  run, watchdog,
}
use c_coding_examples_operat.MyShell.Wait.{Collected, now, run_lem, watchdog_lem}

-- The state is the pid of the child, or 0. A child ends with the status 256.
abbrev collected : ℕ → Option (ℕ × ℕ) × ℕ
collected zero = (none, 0)
collected (suc p) = (some (suc p, 256), 0)

abbrev one_child : ℕ → System ℕ
one_child left = record {
  fork = λ _ s. (some 7, 7);
  wait = collected;
  waitpid = λ _ s. collected s;
  no_child = λ s. s == 0;
  kill = λ _ s. s;
  sleep = λ _ s. (left, s);
  atoi = λ _. pos 5;
  wexitstatus = λ _. 1;
  wtermsig = λ _. 0;
}

-- fork fails, and there is no child.
abbrev no_process : System ℕ
no_process = record (one_child 0) { fork = λ _ s. (none, s); waitpid = λ _ s. (none, s) }

abbrev no_pid : Option ℕ
no_pid = none

run_lem_example :
    (Collected no_process (negsuc 0) 0 0 0 0
      → 0 < 9
      → run no_process 9 [] 0 ≡ ok (unable_to_fork ∷ exited_normally (negsuc 0) 1 ∷ []) 0)
    × (no_pid ≡ none
        → ((v : ℕ) → (z : ℕ) × (no_process.waitpid (negsuc 0) v ≡ (none, z)))
        → run no_process 9 [] 0 ≡ out_of_fuel)
run_lem_example = run_lem no_process 9 0 0 [] none 0 0 0 refl

run-one_child : run (one_child 0) 1 [] 0 ≡ ok (exited_abnormally (pos 7) 1 ∷ []) 0
run-one_child = (run_lem (one_child 0) 1 0 256 [] (some 7) 0 7 0 refl).0 (now refl) (omega arith)

run-no_process : run no_process 9 [] 0 ≡ out_of_fuel
run-no_process = run_lem_example.1 refl λ v. (v, refl)

watchdog-kills :
    watchdog (one_child 0) 1 ([] ∷ []) 0
    ≡ ok (watchdog_entered ∷ exceeded (pos 7) ∷ killed (pos 7) 0 ∷ []) 0
watchdog-kills =
    (watchdog_lem (one_child 0) 1 0 0 256 [] [] (some 7) 0 7 7 0 refl refl (omega arith)).0 refl
      (now refl)
