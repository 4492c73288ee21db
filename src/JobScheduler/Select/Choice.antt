-- ===== src/JobScheduler/Select/Choice.antt =====
-- Which job select_job_to_run of "04. Job Scheduler/jobs.h" starts, and when.
use c_coding_examples_operat.Common.{
  ◌<◌, ◌≤◌, ◌≡◌, ◌≢◌, refl, leb, true, false, ℤ, pos, Option, none, some, List, [], ◌∷◌, ◌++◌,
  arith, ap, sym, All, Bool-cases, inl, inr, subst, lt-cases,
}
use mathlib.Core.Logic.{◌↔◌}
use c_coding_examples_operat.Common.Run.{Run, ok, undefined}
use c_coding_examples_operat.JobScheduler.Job.{Job, Scheduler}
use c_coding_examples_operat.JobScheduler.Queue.{is_wait, num_jobs_running}
use c_coding_examples_operat.JobScheduler.Select.{
  run_job, behind_job, run_first, finish_selection, choose, check_jobs, select_from,
  select_job_to_run,
}

-- What the walk finds: no waiting job, or the first one, which starts.
data Walked (pid : ℤ) : List Job → Option (List Job × ℤ) → Type 0 where
  nobody : {js : List Job} → All (λ (i : Job). is_wait i.state ≡ false) js → Walked pid js none
  somebody :
      (before : List Job) (j : Job) (after : List Job)
      → All (λ (i : Job). is_wait i.state ≡ false) before
      → is_wait j.state ≡ true
      → Walked pid
          (before ++ j ∷ after)
          (some (before ++ (run_job pid j).0 ∷ after, (run_job pid j).1))

run_first-Walked : (pid : ℤ) (js : List Job) → Walked pid js (run_first pid js)
unfolding run_first
run_first-Walked pid [] = nobody tt
run_first-Walked pid (j ∷ js) = elim (Bool-cases (is_wait j.state)) [
  | inl w ↦ rw w (somebody [] j js tt w)
  | inr w ↦ rw w (later (run_first-Walked pid js) w)
]
  where
    later :
        {ks : List Job} {o : Option (List Job × ℤ)}
        → Walked pid ks o
        → is_wait j.state ≡ false
        → Walked pid (j ∷ ks) (behind_job j o)
    later (nobody a) h = nobody (h, a)
    later (somebody before k after a e) h = somebody (j ∷ before) k after (h, a) e

-- What select_job_to_run may do.
pub data Selected (pid : ℤ) (s : Scheduler) : Run Scheduler (Option ℤ) → Type 0 where
  empty : s.jobs ≡ [] → Selected pid s (ok (some (pos 1)) s)
  sleeps : s.njobs ≤ num_jobs_running s.jobs → Selected pid s (ok none s)
  nothing_waits :
      num_jobs_running s.jobs < s.njobs
      → All (λ (i : Job). is_wait i.state ≡ false) s.jobs
      → Selected pid s (ok (some (pos 1)) s)
  starts :
      num_jobs_running s.jobs < s.njobs
      → (before : List Job) (j : Job) (after : List Job) → s.jobs ≡ before ++ j ∷ after
      → All (λ (i : Job). is_wait i.state ≡ false) before
      → is_wait j.state ≡ true
      → Selected pid s
          (ok (some (run_job pid j).1) (record s { jobs = before ++ (run_job pid j).0 ∷ after }))

chosen :
    (pid : ℤ) (s : Scheduler) (js : List Job) {o : Option (List Job × ℤ)}
    → s.jobs ≡ js
    → Walked pid js o
    → num_jobs_running s.jobs < s.njobs
    → Selected pid s (finish_selection o s)
chosen pid s js e (nobody a) h =
    nothing_waits h
      (subst (λ (ks : List Job). All (λ (i : Job). is_wait i.state ≡ false) ks) (sym e) a)
chosen pid s js e (somebody before j after a w) h = starts h before j after e a w

choose-Selected :
    (pid : ℤ) (s : Scheduler) (js : List Job)
    → s.jobs ≡ js
    → js ≢ []
    → num_jobs_running s.jobs < s.njobs
    → Selected pid s (choose pid js s)
unfolding choose
choose-Selected pid s [] e n h = absurd (n refl)
choose-Selected pid s (j ∷ js) e n h = chosen pid s (j ∷ js) e (run_first-Walked pid (j ∷ js)) h

-- With a job in the list, whether the thread has just come or wakes up.
pub check_jobs-Selected :
    (pid : ℤ) (s : Scheduler) → s.jobs ≢ [] → Selected pid s (check_jobs pid s)
unfolding check_jobs
check_jobs-Selected pid s n = elim (lt-cases (num_jobs_running s.jobs) s.njobs) [
  | inl l ↦
      let e : leb s.njobs (num_jobs_running s.jobs) ≡ false = ground arith in
      rw e (choose-Selected pid s s.jobs refl n l)
  | inr l ↦ let e : leb s.njobs (num_jobs_running s.jobs) ≡ true = ground arith in rw e (sleeps l)
]

select_from-Selected :
    (pid : ℤ) (s : Scheduler) (js : List Job) → s.jobs ≡ js → Selected pid s (select_from pid js s)
unfolding select_from
select_from-Selected pid s [] e = empty e
select_from-Selected pid s (j ∷ js) e = check_jobs-Selected pid s (λ n. cc)

-- select_job_to_run returns 1 with no job in the list; it sleeps while `njobs` jobs or more run;
-- otherwise it starts the first job of the list that waits, with the result of run_job, or returns
-- 1 if no job waits. It changes no other job.
pub select_job_to_run-Selected :
    (pid : ℤ) (s : Scheduler) → Selected pid s (select_job_to_run pid s)
unfolding select_job_to_run
select_job_to_run-Selected pid s = select_from-Selected pid s s.jobs refl

pub check_jobs_empty :
    (pid : ℤ) (s : Scheduler) → 0 < s.njobs → s.jobs ≡ [] → check_jobs pid s ≡ undefined
unfolding check_jobs choose num_jobs_running
check_jobs_empty pid s h n =
    let z : leb s.njobs (num_jobs_running s.jobs) ≡ false = ground (arith, ap num_jobs_running n) in
    rw z (ap (λ (ks : List Job). choose pid ks s) n)

Selected-defined :
    {pid : ℤ} {s : Scheduler} {r : Run Scheduler (Option ℤ)} → Selected pid s r → r ≢ undefined
Selected-defined (empty x) u = cc
Selected-defined (sleeps x) u = cc
Selected-defined (nothing_waits x y) u = cc
Selected-defined (starts x b j a y z w) u = cc

check_jobs_undefined :
    (pid : ℤ) (s : Scheduler) (js : List Job)
    → s.jobs ≡ js
    → check_jobs pid s ≡ undefined
    → s.jobs ≡ []
check_jobs_undefined pid s [] e u = e
check_jobs_undefined pid s (j ∷ js) e u =
    absurd (Selected-defined (check_jobs-Selected pid s (λ n. cc)) u)

-- A thread that wakes up when there is no job left in the list reads through a null pointer, and
-- only then; that is for a positive `njobs`.
pub check_jobs_null :
    (pid : ℤ) (s : Scheduler) → 0 < s.njobs → (check_jobs pid s ≡ undefined) ↔ (s.jobs ≡ [])
check_jobs_null pid s h = (check_jobs_undefined pid s s.jobs refl, check_jobs_empty pid s h)
