-- ===== src/JobScheduler/Remove.antt =====
-- remove_job of "04. Job Scheduler/jobs.h".
pub mod Found
use c_coding_examples_operat.Common.{
  ℕ, zero, suc, ◌+◌, ◌<◌, ◌≤◌, ◌≡◌, ◌≢◌, refl, ◌==◌, ltb, if◌then◌else◌, Bool, true, false, ℤ, pos,
  negsuc, Option, none, some, List, [], ◌∷◌, ◌++◌, length, arith, ◌∙◌, ap, sym, not, All, ◌&&◌,
  update, Bool-cases, inl, inr,
}
use c_coding_examples_operat.Common.Run.{Run, ok, undefined, M, Returns, returns}
use c_coding_examples_operat.JobScheduler.Job.{State, wait, run, done, Job, Scheduler}
use c_coding_examples_operat.JobScheduler.Queue.{is_run, num_jobs_running, Ids, Ids-weaken}

-- What the search for a job finds: no job, a job that runs, or the list without the job.
pub data Removal : Type 0 where
  missing refused : Removal
  unlinked : List Job → Removal

abbrev pub behind : Job → Removal → Removal
behind j missing = missing
behind j refused = refused
behind j (unlinked js) = unlinked (j ∷ js)

-- the walk with `wait_jobJob`, from head->next
unfoldable pub remove_rest : ℕ → List Job → Removal
remove_rest id [] = missing
remove_rest id (j ∷ js) =
    if j.id == id
    then if is_run j.state then refused else unlinked js
    else behind j (remove_rest id js)

unfoldable pub remove_from : ℕ → List Job → Removal
remove_from id [] = missing
remove_from id (j ∷ js) =
    if j.id == id && not (is_run j.state) then unlinked js else behind j (remove_rest id js)

-- The file ./output.<id> is removed with the job.
abbrev pub finish_removal : ℕ → Removal → M Scheduler ℤ
finish_removal id missing s = ok (pos 1) s
finish_removal id refused s = ok (negsuc 0) s
finish_removal id (unlinked js) s =
    ok (pos 0) (record s { jobs = js; top_outputs = update s.top_outputs id false })

-- `id` is not negative: no job has a negative id.
unfoldable pub remove_job : ℕ → M Scheduler ℤ
remove_job id s = finish_removal id (remove_from id s.jobs) s

unfoldable pub running_jobs : List Job → List Job
running_jobs [] = []
running_jobs (j ∷ js) = if is_run j.state then j ∷ running_jobs js else running_jobs js

-- The list after a search, where the old list is `js`
abbrev pub jobs_after : List Job → Removal → List Job
jobs_after js missing = js
jobs_after js refused = js
jobs_after js (unlinked ks) = ks

pub jobs_after-behind :
    (j : Job) (js : List Job) (r : Removal) → jobs_after (j ∷ js) (behind j r) ≡ j ∷ jobs_after js r
jobs_after-behind j js missing = refl
jobs_after-behind j js refused = refl
jobs_after-behind j js (unlinked ks) = refl

running_jobs-remove_rest :
    (id : ℕ) (js : List Job) → running_jobs (jobs_after js (remove_rest id js)) ≡ running_jobs js
unfolding running_jobs remove_rest
running_jobs-remove_rest id [] = refl
running_jobs-remove_rest id (j ∷ js) = elim (Bool-cases (j.id == id)) [
  | inl e ↦ elim (Bool-cases (is_run j.state)) [ inl r ↦ rw (e, r, r) | inr r ↦ rw (e, r) ]
  | inr e ↦ rw (e, jobs_after-behind j js (remove_rest id js), running_jobs-remove_rest id js)
]

pub running_jobs-remove_from :
    (id : ℕ) (js : List Job) → running_jobs (jobs_after js (remove_from id js)) ≡ running_jobs js
unfolding running_jobs remove_from
running_jobs-remove_from id [] = refl
running_jobs-remove_from id (j ∷ js) = elim (Bool-cases (j.id == id && not (is_run j.state))) [
  | inl e ↦ let r : is_run j.state ≡ false = ground arith in rw (e, r)
  | inr e ↦ rw (e, jobs_after-behind j js (remove_rest id js), running_jobs-remove_rest id js)
]

pub finish_removal-Returns :
    (P : List Job → Type 0) (id : ℕ) (s : Scheduler) (r : Removal)
    → P (jobs_after s.jobs r)
    → Returns
        (λ _ t. P t.jobs × (t.njobs ≡ s.njobs) × (t.jobid ≡ s.jobid) × (t.outputs ≡ s.outputs))
        (finish_removal id r s)
finish_removal-Returns P id s missing p = returns (p, refl, refl, refl)
finish_removal-Returns P id s refused p = returns (p, refl, refl, refl)
finish_removal-Returns P id s (unlinked js) p = returns (p, refl, refl, refl)

-- remove_job returns for every id, and the running jobs are the same ones, in the same order, as
-- before. The limit of running jobs, the next id and the files ./outputs/output.<id>, where the
-- jobs write, are unchanged.
pub remove_job_running :
    (id : ℕ) (s : Scheduler)
    → Returns
        (λ _ t.
          (running_jobs t.jobs ≡ running_jobs s.jobs)
          × (t.njobs ≡ s.njobs)
          × (t.jobid ≡ s.jobid)
          × (t.outputs ≡ s.outputs))
        (remove_job id s)
unfolding remove_job
remove_job_running id s =
    finish_removal-Returns (λ js. running_jobs js ≡ running_jobs s.jobs) id s
      (remove_from id s.jobs) (running_jobs-remove_from id s.jobs)
