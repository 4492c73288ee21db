-- ===== src/JobScheduler/Tests.antt =====
-- A list of three jobs, and the theorems at it.
use c_coding_examples_operat.Common.{
  ◌≡◌, refl, true, false, pos, negsuc, none, some, [], ◌∷◌, arith,
}
use c_coding_examples_operat.Common.Run.{ok, and_then}
use c_coding_examples_operat.JobScheduler.Job.{
  Word, run, done, Job, Scheduler, job_queue_create, new_job, create_job, copy_words, fill_job,
}
use c_coding_examples_operat.JobScheduler.Queue.{num_jobs_running, append_job, queue_job}
use c_coding_examples_operat.JobScheduler.Remove.{remove_job}
use c_coding_examples_operat.JobScheduler.Remove.Found.{remove_job_found}
use c_coding_examples_operat.JobScheduler.Select.{
  select_job_to_run, select_from, choose, run_first, check_jobs,
}
use c_coding_examples_operat.JobScheduler.Select.Choice.{Selected, select_job_to_run-Selected}
use c_coding_examples_operat.JobScheduler.Steps.{Reachable, start, step, submit, select}
use c_coding_examples_operat.JobScheduler.Steps.Invariant.{Inv, reachable-Inv}

-- the words "ls" and "-l"
abbrev ls : Word
ls = 108 ∷ 115 ∷ []

abbrev dash_l : Word
dash_l = 45 ∷ 108 ∷ []

abbrev job_1 : Job
job_1 = record (new_job 1 ls (ls ∷ [])) { state = done; pid = pos 70; exit = pos 0 }

abbrev job_2 : Job
job_2 = record (new_job 2 ls (ls ∷ [])) { state = run; pid = pos 71 }

abbrev job_3 : Job
job_3 = new_job 3 ls (ls ∷ [])

abbrev three_jobs : Scheduler
three_jobs = record {
  jobs = job_1 ∷ job_2 ∷ job_3 ∷ [];
  njobs = 1;
  jobid = 4;
  outputs = λ _. true;
  top_outputs = λ _. false;
}

abbrev fresh : Scheduler
fresh = job_queue_create (λ _. false) (λ _. false)

remove_job_found_example : remove_job 2 three_jobs ≡ ok (negsuc 0) three_jobs
remove_job_found_example =
    remove_job_found three_jobs (job_1 ∷ []) job_2 (job_3 ∷ []) refl
      (omega arith, (omega arith, (omega arith, omega arith)))

select_job_to_run-Selected_example :
    Selected (pos 72) three_jobs (select_job_to_run (pos 72) three_jobs)
select_job_to_run-Selected_example = select_job_to_run-Selected (pos 72) three_jobs

-- A job is submitted and starts.
abbrev submitted : Scheduler
submitted = record fresh { jobs = new_job 1 ls (ls ∷ []) ∷ []; jobid = 2 }

abbrev started : Scheduler
started = record submitted {
  jobs = record (new_job 1 ls (ls ∷ [])) { state = run; pid = pos 70 } ∷ [];
}

submits : and_then (create_job ls 2 (some ls ∷ none ∷ []) fresh) queue_job ≡ ok (pos 0) submitted
unfolding create_job fill_job copy_words queue_job append_job
submits = refl

selects : select_job_to_run (pos 70) submitted ≡ ok (some (pos 0)) started
unfolding select_job_to_run select_from check_jobs choose run_first num_jobs_running
selects = refl

started-Reachable : Reachable 1 started
started-Reachable =
    step (step (start (λ _. false) (λ _. false)) (submit ls 2 (some ls ∷ none ∷ []) submits))
      (select (pos 70) selects)

reachable-Inv_example : Inv 1 started
reachable-Inv_example = reachable-Inv 1 started (omega arith) started-Reachable
