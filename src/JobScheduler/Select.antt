-- ===== src/JobScheduler/Select.antt =====
-- run_job and select_job_to_run of "04. Job Scheduler/jobs.h".
pub mod Choice
use c_coding_examples_operat.Common.{
  ℕ, ◌+◌, ◌≤◌, ◌<◌, ◌≡◌, leb, if◌then◌else◌, Bool, true, false, ℤ, pos, negsuc, ltb_ℤ, Option, none,
  some, List, [], ◌∷◌,
}
use c_coding_examples_operat.Common.Run.{Run, ok, undefined, M}
use c_coding_examples_operat.JobScheduler.Job.{State, run, Job, Scheduler}
use c_coding_examples_operat.JobScheduler.Queue.{is_wait, num_jobs_running}

-- The job and the result of run_job in the parent, where `pid` is the result of fork(), and not 0.
abbrev pub run_job : ℤ → Job → Job × ℤ
run_job pid j =
    if ltb_ℤ pid (pos 0)
    then (record j { state = run }, pos 1)
    else (record j { state = run; pid = pid }, pos 0)

abbrev pub behind_job : Job → Option (List Job × ℤ) → Option (List Job × ℤ)
behind_job j none = none
behind_job j (some (js, r)) = some (j ∷ js, r)

-- the walk to the first job that waits
unfoldable pub run_first : ℤ → List Job → Option (List Job × ℤ)
run_first pid [] = none
run_first pid (j ∷ js) =
    if is_wait j.state
    then (let (i, r) = run_job pid j in some (i ∷ js, r))
    else behind_job j (run_first pid js)

abbrev pub finish_selection : Option (List Job × ℤ) → M Scheduler (Option ℤ)
finish_selection none s = ok (some (pos 1)) s
finish_selection (some (js, r)) s = ok (some r) (record s { jobs = js })

-- Behind the waiting loop: `wait_jobJob->state` is read at the head, which may be NULL.
unfoldable pub choose : ℤ → List Job → M Scheduler (Option ℤ)
choose pid [] s = undefined
choose pid (j ∷ js) s = finish_selection (run_first pid (j ∷ js)) s

-- The test of the waiting loop, and what follows: `none` when the thread sleeps, and gives the
-- mutex away. It comes back here when it wakes, whatever the list has become.
unfoldable pub check_jobs : ℤ → M Scheduler (Option ℤ)
check_jobs pid s = if leb s.njobs (num_jobs_running s.jobs) then ok none s else choose pid s.jobs s

unfoldable pub select_from : ℤ → List Job → M Scheduler (Option ℤ)
select_from pid [] s = ok (some (pos 1)) s
select_from pid (j ∷ js) s = check_jobs pid s

unfoldable pub select_job_to_run : ℤ → M Scheduler (Option ℤ)
select_job_to_run pid s = select_from pid s.jobs s
