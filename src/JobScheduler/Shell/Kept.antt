-- ===== src/JobScheduler/Shell/Kept.antt =====
-- What happens to the jobs while the shell of "04. Job Scheduler/jobsched.c" is stopped.
use c_coding_examples_operat.Common.{
  ◌≡◌, refl, sym, subst, Bool-cases, inl, inr, true, ℤ, pos, ltb_ℤ, leb, Option, List, [], ◌∷◌,
  ◌++◌,
}
use c_coding_examples_operat.Common.Run.{Run, ok}
use c_coding_examples_operat.JobScheduler.Job.{State, wait, run, done, Job, Scheduler}
use c_coding_examples_operat.JobScheduler.Queue.{
  is_wait, completed, finish_completion, job_complete, num_jobs_running, Completed, nobody, first,
  complete_in-Completed,
}
use c_coding_examples_operat.JobScheduler.Select.{run_job, choose, check_jobs}
use c_coding_examples_operat.JobScheduler.Select.Choice.{
  Selected, empty, sleeps, nothing_waits, starts, check_jobs-Selected, select_job_to_run-Selected,
}
use c_coding_examples_operat.JobScheduler.Shell.{
  is_done, Background, completes, selects, wakes, opens,
}

-- The same jobs in the same order, and what was done is done.
abbrev pub KeptJob : Job → Job → Type 0
KeptJob j k = (k.id ≡ j.id) × (is_done j.state ≡ true → is_done k.state ≡ true)

abbrev pub Kept : List Job → List Job → Type 0
Kept [] [] = Unit {0}
Kept (j ∷ js) (k ∷ ks) = KeptJob j k × Kept js ks
Kept [] (k ∷ ks) = ⊥
Kept (j ∷ js) [] = ⊥

Kept-refl : (js : List Job) → Kept js js
Kept-refl [] = tt
Kept-refl (j ∷ js) = ((refl, λ d. d), Kept-refl js)

Kept-replaced :
    (before : List Job) (j k : Job) (after : List Job)
    → KeptJob j k
    → Kept (before ++ j ∷ after) (before ++ k ∷ after)
Kept-replaced [] j k after h = (h, Kept-refl after)
Kept-replaced (b ∷ before) j k after h = ((refl, λ d. d), Kept-replaced before j k after h)

KeptJob-run_job : (pid : ℤ) (j : Job) → is_wait j.state ≡ true → KeptJob j (run_job pid j).0
KeptJob-run_job pid j w = (same, λ d. absurd (not_both j.state w d))
  where
    same : (run_job pid j).0.id ≡ j.id
    same = elim (Bool-cases (ltb_ℤ pid (pos 0))) [ inl e ↦ rw e | inr e ↦ rw e ]

    not_both : (st : State) → is_wait st ≡ true → is_done st ≡ true → ⊥
    not_both wait a b = cc
    not_both run a b = cc
    not_both done a b = cc

-- A run leaves the jobs so when it returns.
abbrev Leaves : {A : Type 0} → List Job → Run Scheduler A → Type 0
Leaves js (ok a t) = Kept js t.jobs
Leaves js _ = Unit {0}

Completed-Leaves :
    {pid status : ℤ} (s : Scheduler) (js : List Job) {o : Option (List Job)}
    → s.jobs ≡ js
    → Completed pid status js o
    → Leaves s.jobs (finish_completion o s)
Completed-Leaves s js e (nobody a) = Kept-refl s.jobs
Completed-Leaves {status = status} s js e (first before j after a h) =
    subst (λ ks. Kept ks (before ++ completed status j ∷ after)) (sym e)
      (Kept-replaced before j (completed status j) after (refl, λ d. refl))

Selected-Leaves :
    {pid : ℤ} (s : Scheduler) {r : Run Scheduler (Option ℤ)} → Selected pid s r → Leaves s.jobs r
Selected-Leaves s (empty e) = Kept-refl s.jobs
Selected-Leaves s (sleeps h) = Kept-refl s.jobs
Selected-Leaves s (nothing_waits h a) = Kept-refl s.jobs
Selected-Leaves {pid} s (starts h before j after e a w) =
    subst (λ ks. Kept ks (before ++ (run_job pid j).0 ∷ after)) (sym e)
      (Kept-replaced before j (run_job pid j).0 after (KeptJob-run_job pid j w))

check_jobs-Leaves :
    (pid : ℤ) (s : Scheduler) (js : List Job) → s.jobs ≡ js → Leaves s.jobs (check_jobs pid s)
unfolding check_jobs choose
check_jobs-Leaves pid s [] e = elim (Bool-cases (leb s.njobs (num_jobs_running s.jobs))) [
  | inl h ↦ rw h (Kept-refl s.jobs)
  | inr h ↦ rw (h, e) tt
]
check_jobs-Leaves pid s (j ∷ js) e = Selected-Leaves s (check_jobs-Selected pid s (λ n. cc))

pub Background-Kept : (s t : Scheduler) → Background s t → Kept s.jobs t.jobs
unfolding job_complete
Background-Kept s t (completes pid status e) =
    subst (Leaves s.jobs) e
      (Completed-Leaves s s.jobs refl (complete_in-Completed pid status s.jobs))
Background-Kept s t (selects pid e) =
    subst (Leaves s.jobs) e (Selected-Leaves s (select_job_to_run-Selected pid s))
Background-Kept s t (wakes pid e) = subst (Leaves s.jobs) e (check_jobs-Leaves pid s s.jobs refl)
Background-Kept s t (opens id) = Kept-refl s.jobs
