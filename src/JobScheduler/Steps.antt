-- ===== src/JobScheduler/Steps.antt =====
-- The shell, the scheduler thread, the handler of SIGCHLD and the started programs of "04. Job
-- Scheduler": each takes steps on the list of jobs, in any order.
pub mod Invariant
use c_coding_examples_operat.Common.{
  ℕ, ◌+◌, ◌<◌, ◌≤◌, ◌≡◌, Bool, true, ℤ, pos_part, Option, List, update,
}
use c_coding_examples_operat.Common.Run.{Run, ok, and_then}
use c_coding_examples_operat.JobScheduler.Job.{Word, Job, Scheduler, job_queue_create, create_job}
use c_coding_examples_operat.JobScheduler.Queue.{queue_job, set_njobs, job_complete}
use c_coding_examples_operat.JobScheduler.Remove.{remove_job}
use c_coding_examples_operat.JobScheduler.Select.{select_job_to_run, check_jobs}

-- The commands submit, njobs and remove; the handler; the scheduler thread, when it calls
-- select_job_to_run and when it wakes up in it; a program that opens its file for the output. Only
-- the shell uses `jobid`, so create_job and queue_job are one step. No njobs command sets more than
-- `limit`.
pub data Step (limit : ℕ) (s : Scheduler) : Scheduler → Type 0 where
  submit :
      (commands : Word) (nwords : ℕ) (args : List (Option Word)) {r : ℤ} {t : Scheduler}
      → and_then (create_job commands nwords args s) queue_job ≡ ok r t
      → Step limit s t
  njobs : (n : ℤ) {t : Scheduler} → pos_part n ≤ limit → set_njobs n s ≡ ok tt t → Step limit s t
  remove : (id : ℕ) {r : ℤ} {t : Scheduler} → remove_job id s ≡ ok r t → Step limit s t
  handler :
      (pid status : ℤ) {r : ℤ} {t : Scheduler} → job_complete pid status s ≡ ok r t → Step limit s t
  select :
      (pid : ℤ) {r : Option ℤ} {t : Scheduler} → select_job_to_run pid s ≡ ok r t → Step limit s t
  wake : (pid : ℤ) {r : Option ℤ} {t : Scheduler} → check_jobs pid s ≡ ok r t → Step limit s t
  open_output : (id : ℕ) → Step limit s (record s { outputs = update s.outputs id true })

pub data Reachable (limit : ℕ) : Scheduler → Type 0 where
  start : (outputs top_outputs : ℕ → Bool) → Reachable limit (job_queue_create outputs top_outputs)
  step : {s t : Scheduler} → Reachable limit s → Step limit s t → Reachable limit t
