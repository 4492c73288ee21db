-- ===== src/MyShell/Wait.antt =====
-- The commands of "02. Processes and the Shell/myshell.c" that wait for the process they have started.
use c_coding_examples_operat.Common.{
  ℕ, zero, suc, ◌<◌, ◌≡◌, refl, ℤ, negsuc, Option, none, some, List, [], ◌∷◌, ◌++◌, arith,
}
use c_coding_examples_operat.Common.Run.{ok, out_of_fuel}
use c_coding_examples_operat.JobScheduler.Job.{Word}
use c_coding_examples_operat.MyShell.{
  System, watchdog_entered, exceeded, killed, pid_of, fork_error, to_unsigned, report, collect, run,
  watchdog,
}

module _ {S : Type 0} (system : System S) where
  -- waitpid for the pid fails `n` times, as it does when a signal comes, and then gives the status.
  pub data Collected (pid : ℤ) : S → ℕ → ℕ → S → Type 0 where
    now :
        {s t : S} {p status : ℕ}
        → system.waitpid pid s ≡ (some (p, status), t)
        → Collected pid s 0 status t
    later :
        {s t u : S} {n status : ℕ}
        → system.waitpid pid s ≡ (none, t)
        → Collected pid t n status u
        → Collected pid s (suc n) status u

  pub collect-Collected :
      (f : ℕ) {pid : ℤ} {s t : S} {n status : ℕ}
      → Collected pid s n status t
      → n < f
      → collect system f pid s ≡ ok status t
  unfolding collect
  collect-Collected zero c h = absurd (omega arith)
  collect-Collected (suc f) (now e) h = rw e refl
  collect-Collected (suc f) (later e c) h = rw e (collect-Collected f c (omega arith))

  -- With no child, the loop has no end.
  pub collect-endless :
      (f : ℕ) (pid : ℤ) (s : S)
      → ((t : S) → (u : S) × (system.waitpid pid t ≡ (none, u)))
      → collect system f pid s ≡ out_of_fuel
  unfolding collect
  collect-endless zero pid s h = refl
  collect-endless (suc f) pid s h = let (u, e) = h s in rw e (collect-endless f pid u h)

-- run waits for the process with the pid that fork gave, which is -1 if fork has failed. When
-- waitpid for it gives a status, after `n` calls that fail, run ends there and prints this status; fuel
-- above `n` is enough. Behind a fork that has failed, the status is that of any child, printed
-- as one of process -1; and if there is no child, run never ends, however much fuel there is.
pub run_lem :
    {S : Type 0} (system : System S) (f n status : ℕ) (words : List Word) (pid : Option ℕ)
    (s t u : S)
    → system.fork words s ≡ (pid, t)
    → (Collected system (pid_of pid) t n status u
        → n < f
        → run system f words s ≡ ok (fork_error pid ++ (report system (pid_of pid) status ∷ [])) u)
      × (pid ≡ none
          → ((v : S) → (z : S) × (system.waitpid (negsuc 0) v ≡ (none, z)))
          → run system f words s ≡ out_of_fuel)
unfolding run
run_lem system f n status words pid s t u e = (
  (λ c h. rw (e, collect-Collected system f c h) refl),
  (λ failed h. rw (e, failed, collect-endless system f (negsuc 0) t h) refl),
)

-- watchdog sleeps, and what it then does depends on what sleep says alone. When the time is over, it
-- kills the process whose pid fork gave, waits until that has ended, and prints that it was
-- killed, by the signal of its status. When sleep was interrupted, it kills nothing and waits without
-- a limit: for the pid that fork gave, though it may have been another child that has ended.
-- Behind a fork that has failed the pid is -1, with which kill is for every process.
pub watchdog_lem :
    {S : Type 0} (system : System S) (f n left status : ℕ) (w : Word) (words : List Word)
    (pid : Option ℕ) (s t u v : S)
    → system.fork words s ≡ (pid, t)
    → system.sleep (to_unsigned (system.atoi w)) t ≡ (left, u)
    → n < f
    → (left ≡ 0
        → Collected system (pid_of pid) (system.kill (pid_of pid) u) n status v
        → watchdog system f (w ∷ words) s
          ≡ ok
              (watchdog_entered
                ∷ (fork_error pid
                    ++ (exceeded (pid_of pid) ∷ killed (pid_of pid) (system.wtermsig status) ∷ [])))
              v)
      × (0 < left
          → Collected system (pid_of pid) u n status v
          → watchdog system f (w ∷ words) s
            ≡ ok
                (watchdog_entered ∷ (fork_error pid ++ (report system (pid_of pid) status ∷ [])))
                v)
unfolding watchdog
watchdog_lem system f n zero status w words pid s t u v e slept h =
    ((λ _ c. rw (e, slept, collect-Collected system f c h) refl), (λ l. absurd (omega arith)))
watchdog_lem system f n (suc left) status w words pid s t u v e slept h =
    ((λ l. absurd (omega (arith, l))), (λ _ c. rw (e, slept, collect-Collected system f c h) refl))
