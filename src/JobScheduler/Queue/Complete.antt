-- ===== src/JobScheduler/Queue/Complete.antt =====
-- What job_complete of "04. Job Scheduler/jobs.h" does for a pid in the list.
use c_coding_examples_operat.Common.{
  ◌+◌, ◌≡◌, refl, if◌then◌else◌, true, false, ℤ, pos, Option, none, some, List, [], ◌∷◌, ◌++◌,
  arith, ◌∙◌, ap, All,
}
use c_coding_examples_operat.Common.Run.{ok, Returns, returns}
use c_coding_examples_operat.JobScheduler.Job.{Job, Scheduler}
use c_coding_examples_operat.JobScheduler.Queue.{
  is_run, same_pid, completed, complete_in, finish_completion, job_complete, num_jobs_running,
}

module _ (pid status : ℤ) where
  complete_in-first :
      (before : List Job) (j : Job) (after : List Job)
      → All (λ (i : Job). same_pid i.pid pid ≡ false) before
      → same_pid j.pid pid ≡ true
      → complete_in pid status (before ++ j ∷ after) ≡ some (before ++ completed status j ∷ after)
  unfolding complete_in
  complete_in-first [] j after a h = rw h
  complete_in-first (i ∷ before) j after (k, a) h = rw (k, complete_in-first before j after a h)

  complete_in-none :
      (js : List Job)
      → All (λ (i : Job). same_pid i.pid pid ≡ false) js
      → complete_in pid status js ≡ none
  unfolding complete_in
  complete_in-none [] a = refl
  complete_in-none (i ∷ js) (k, a) = rw (k, complete_in-none js a)

  -- The first job of the list with the pid is done, with the exit status. The other jobs are as
  -- they were, those behind it with the same pid too.
  pub job_complete-first :
      (s : Scheduler) (before : List Job) (j : Job) (after : List Job)
      → s.jobs ≡ before ++ j ∷ after
      → All (λ (i : Job). same_pid i.pid pid ≡ false) before
      → same_pid j.pid pid ≡ true
      → job_complete pid status s
        ≡ ok (pos 0) (record s { jobs = before ++ completed status j ∷ after })
  unfolding job_complete
  job_complete-first s before j after e a h =
      ap (λ (o : Option (List Job)). finish_completion o s)
        (ap (complete_in pid status) e ∙ complete_in-first before j after a h)

  -- Without a job of that pid, job_complete returns 2 and changes nothing.
  pub job_complete-none :
      (s : Scheduler)
      → All (λ (i : Job). same_pid i.pid pid ≡ false) s.jobs
      → job_complete pid status s ≡ ok (pos 2) s
  unfolding job_complete
  job_complete-none s a = rw (complete_in-none s.jobs a)

num_jobs_running-completed :
    (status : ℤ) (before : List Job) (j : Job) (after : List Job)
    → num_jobs_running (before ++ completed status j ∷ after) + (if is_run j.state then 1 else 0)
      ≡ num_jobs_running (before ++ j ∷ after)
unfolding num_jobs_running
num_jobs_running-completed status [] j after = ground arith
num_jobs_running-completed status (k ∷ before) j after =
    ground (arith, num_jobs_running-completed status before j after)

-- If the first job with the pid of a finished program is not a running one, as when the system
-- gives the pid of an old job to a new one, then as many jobs count as running as before, and the
-- place of the finished one is not given free.
pub job_complete_recycled :
    (pid status : ℤ) (s : Scheduler) (before : List Job) (j : Job) (after : List Job)
    → s.jobs ≡ before ++ j ∷ after
    → All (λ (i : Job). same_pid i.pid pid ≡ false) before
    → same_pid j.pid pid ≡ true
    → is_run j.state ≡ false
    → Returns (λ _ t. num_jobs_running t.jobs ≡ num_jobs_running s.jobs) (job_complete pid status s)
job_complete_recycled pid status s before j after e a h r =
    rw (job_complete-first pid status s before j after e a h) (
      returns
        (ground (arith, ap num_jobs_running e, num_jobs_running-completed status before j after)))
