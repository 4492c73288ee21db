-- ===== src/JobScheduler/Queue.antt =====
-- The operations of "04. Job Scheduler/jobs.h" on the list of jobs, but remove_job and
-- select_job_to_run. Each runs under the mutex, as one step.
pub mod Complete
use c_coding_examples_operat.Common.{
  ℕ, zero, suc, ◌+◌, ◌<◌, ◌≤◌, ◌≡◌, ◌≢◌, refl, ◌==◌, ltb, if◌then◌else◌, Bool, true, false, ℤ, pos,
  negsuc, ltb_ℤ, pos_part, Option, none, some, List, [], ◌∷◌, ◌++◌, length, arith, ◌∙◌, ap, not,
  All, ◌-◌, Bool-cases, inl, inr,
}
use c_coding_examples_operat.Common.Run.{Run, ok, undefined, M}
use c_coding_examples_operat.JobScheduler.Job.{State, wait, run, done, Job, Scheduler, new_job}
use mathlib.Core.Option.{map}

abbrev pub is_wait : State → Bool
is_wait wait = true
is_wait _ = false

abbrev pub is_run : State → Bool
is_run run = true
is_run _ = false

-- the walk to the last job, and the new job behind it
unfoldable pub append_job : List Job → Job → List Job
append_job [] job = job ∷ []
append_job (j ∷ js) job = j ∷ append_job js job

unfoldable pub queue_job : Job → M Scheduler ℤ
queue_job job s = ok (pos 0) (record s { jobs = append_job s.jobs job })

unfoldable pub set_njobs : ℤ → M Scheduler (Unit {0})
set_njobs n s = if ltb_ℤ (pos 0) n then ok tt (record s { njobs = pos_part n }) else ok tt s

-- `curr->pid == pid`
abbrev pub same_pid : ℤ → ℤ → Bool
same_pid (pos a) (pos b) = a == b
same_pid (negsuc a) (negsuc b) = a == b
same_pid _ _ = false

abbrev pub completed : ℤ → Job → Job
completed status j = record j { state = done; exit = status }

-- the first job with the pid; none if there is no such job
unfoldable pub complete_in : ℤ → ℤ → List Job → Option (List Job)
complete_in pid status [] = none
complete_in pid status (j ∷ js) =
    if same_pid j.pid pid
    then some (completed status j ∷ js)
    else map (λ (rest : List Job). j ∷ rest) (complete_in pid status js)

abbrev pub finish_completion : Option (List Job) → M Scheduler ℤ
finish_completion none s = ok (pos 2) s
finish_completion (some js) s = ok (pos 0) (record s { jobs = js })

unfoldable pub job_complete : ℤ → ℤ → M Scheduler ℤ
job_complete pid status s = finish_completion (complete_in pid status s.jobs) s

unfoldable pub num_jobs_running : List Job → ℕ
num_jobs_running [] = 0
num_jobs_running (j ∷ js) = if is_run j.state then num_jobs_running js + 1 else num_jobs_running js

-- Ids grow along the list, from above `lo` to below `hi`.
abbrev pub Ids : ℕ → List Job → ℕ → Type 0
Ids lo [] hi = lo < hi
Ids lo (j ∷ js) hi = (lo < j.id) × Ids j.id js hi

pub Ids-lt : (lo : ℕ) (js : List Job) (hi : ℕ) → Ids lo js hi → lo < hi
Ids-lt lo [] hi h = h
Ids-lt lo (j ∷ js) hi (h, k) = omega (arith, Ids-lt j.id js hi k)

pub Ids-weaken : (lo mid : ℕ) (js : List Job) (hi : ℕ) → lo ≤ mid → Ids mid js hi → Ids lo js hi
Ids-weaken lo mid [] hi h k = omega arith
Ids-weaken lo mid (j ∷ js) hi h (k, l) = (omega arith, l)

pub Ids-append_job :
    (lo : ℕ) (js : List Job) (job : Job) (hi : ℕ)
    → job.id ≡ hi
    → Ids lo js hi
    → Ids lo (append_job js job) (hi + 1)
unfolding append_job
Ids-append_job lo [] job hi e h = (omega arith, omega arith)
Ids-append_job lo (j ∷ js) job hi e (h, k) = (h, Ids-append_job j.id js job hi e k)

pub num_jobs_running-append_job :
    (js : List Job) (job : Job)
    → is_run job.state ≡ false
    → num_jobs_running (append_job js job) ≡ num_jobs_running js
unfolding append_job num_jobs_running
num_jobs_running-append_job [] job e = ground arith
num_jobs_running-append_job (j ∷ js) job e = ground (arith, num_jobs_running-append_job js job e)

-- What completing a job does to the list: the first job with the pid is done, the others are as
-- they were.
pub data Completed (pid status : ℤ) : List Job → Option (List Job) → Type 0 where
  nobody :
      {js : List Job}
      → All (λ (j : Job). same_pid j.pid pid ≡ false) js
      → Completed pid status js none
  first :
      (before : List Job) (j : Job) (after : List Job)
      → All (λ (i : Job). same_pid i.pid pid ≡ false) before
      → same_pid j.pid pid ≡ true
      → Completed pid status (before ++ j ∷ after) (some (before ++ completed status j ∷ after))

pub complete_in-Completed :
    (pid status : ℤ) (js : List Job) → Completed pid status js (complete_in pid status js)
unfolding complete_in
complete_in-Completed pid status [] = nobody tt
complete_in-Completed pid status (j ∷ js) = elim (Bool-cases (same_pid j.pid pid)) [
  | inl h ↦ rw h (first [] j js tt h)
  | inr h ↦ rw h (later (complete_in-Completed pid status js) h)
]
  where
    later :
        {ks : List Job} {o : Option (List Job)}
        → Completed pid status ks o
        → same_pid j.pid pid ≡ false
        → Completed pid status (j ∷ ks) (map (λ (rest : List Job). j ∷ rest) o)
    later (nobody a) h = nobody (h, a)
    later (first before k after a e) h = first (j ∷ before) k after (h, a) e
