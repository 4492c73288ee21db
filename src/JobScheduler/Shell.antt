-- ===== src/JobScheduler/Shell.antt =====
-- The commands status, drain and wait of "04. Job Scheduler/jobsched.c". The last two stop the shell until
-- jobs are done, while the scheduler thread, the handler of SIGCHLD and the started programs go on.
pub mod Commands
pub mod Kept
pub mod Drained
pub mod Waited
mod Tests
use c_coding_examples_operat.Common.{
  ℕ, zero, suc, ◌+◌, ◌==◌, ◌≡◌, ◌≢◌, if◌then◌else◌, Bool, true, false, ℤ, Option, none, some, List,
  [], ◌∷◌, update,
}
use mathlib.Core.Option.{map}
use c_coding_examples_operat.Common.Run.{ok}
use c_coding_examples_operat.JobScheduler.Job.{Word, State, done, Job, Scheduler}
use c_coding_examples_operat.JobScheduler.Queue.{job_complete}
use c_coding_examples_operat.JobScheduler.Select.{select_job_to_run, check_jobs}

abbrev pub is_done : State → Bool
is_done done = true
is_done _ = false

-- A line of the command status: the exit status only of a job that is done.
abbrev pub status_line : Job → ℕ × State × Option ℤ × Word
status_line j = (j.id, j.state, if is_done j.state then some j.exit else none, j.commands)

unfoldable pub status : List Job → List (ℕ × State × Option ℤ × Word)
status [] = []
status (j ∷ js) = status_line j ∷ status js

-- Where the shell is: between commands; in pthread_cond_wait of drain, or in the loop of wait, at a
-- job, which is given by its position; or it has left main.
pub data Place : Type 0 where
  ready exited : Place
  draining spinning : ℕ → Place

-- the walk of drain, up to a job that is not done: how many jobs it passes, or none at the end
unfoldable pub drain_walk : List Job → Option ℕ
drain_walk [] = none
drain_walk (j ∷ js) = if is_done j.state then map suc (drain_walk js) else some 0

abbrev pub after_walk : ℕ → Option ℕ → Place
after_walk k none = ready
after_walk k (some n) = draining (k + n)

unfoldable pub jobs_from : ℕ → List Job → List Job
jobs_from zero js = js
jobs_from (suc k) [] = []
jobs_from (suc k) (j ∷ js) = jobs_from k js

-- drain, from the job at position k on
abbrev pub drain_from : ℕ → List Job → Place
drain_from k js = after_walk k (drain_walk (jobs_from k js))

-- the walk of wait to the job with the id; none behind the last job
unfoldable pub find_job : ℕ → List Job → Option ℕ
find_job id [] = none
find_job id (j ∷ js) = if j.id == id then some 0 else map suc (find_job id js)

-- main returns 1 when there is no such job.
abbrev pub after_find : Option ℕ → Place
after_find none = exited
after_find (some k) = spinning k

abbrev pub job_at : ℕ → List Job → Option Job
job_at k [] = none
job_at zero (j ∷ js) = some j
job_at (suc k) (j ∷ js) = job_at k js

-- `while (currJob->state != DONE){}`: one round
abbrev pub look : ℕ → Option Job → Place
look k none = spinning k
look k (some j) = if is_done j.state then ready else spinning k

pub record Session : Type 0 where
  pub scheduler : Scheduler
  pub place : Place

-- The steps that go on while the shell is stopped: the handler, the scheduler thread, and a program
-- that opens its file for the output.
pub data Background (s : Scheduler) : Scheduler → Type 0 where
  completes :
      (pid status : ℤ) {r : ℤ} {t : Scheduler} → job_complete pid status s ≡ ok r t → Background s t
  selects :
      (pid : ℤ) {r : Option ℤ} {t : Scheduler} → select_job_to_run pid s ≡ ok r t → Background s t
  wakes : (pid : ℤ) {r : Option ℤ} {t : Scheduler} → check_jobs pid s ≡ ok r t → Background s t
  opens : (id : ℕ) → Background s (record s { outputs = update s.outputs id true })

-- One step while the shell is stopped
pub data Stopped : Session → Session → Type 0 where
  background :
      {s t : Scheduler} {p : Place}
      → p ≢ ready
      → Background s t
      → Stopped (record { scheduler = s; place = p }) (record { scheduler = t; place = p })
  woken :
      {s : Scheduler} (k : ℕ)
      → Stopped
          (record { scheduler = s; place = draining k })
          (record { scheduler = s; place = drain_from k s.jobs })
  spins :
      {s : Scheduler} (k : ℕ)
      → Stopped
          (record { scheduler = s; place = spinning k })
          (record { scheduler = s; place = look k (job_at k s.jobs) })

pub data During (s : Session) : Session → Type 0 where
  begins : During s s
  goes_on : {t u : Session} → During s t → Stopped t u → During s u

-- The shell reads drain, or wait with an id.
abbrev pub drain : Scheduler → Session
drain s = record { scheduler = s; place = drain_from 0 s.jobs }

abbrev pub wait_for : ℕ → Scheduler → Session
wait_for id s = record { scheduler = s; place = after_find (find_job id s.jobs) }
