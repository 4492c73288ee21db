-- ===== src/JobScheduler/Steps/Invariant.antt =====
-- What every step on the list of jobs of "04. Job Scheduler" keeps.
use c_coding_examples_operat.Common.{
  ◌^◌, ℕ, ◌+◌, ◌<◌, ◌≤◌, ◌≡◌, refl, if◌then◌else◌, false, ℤ, pos, ltb_ℤ, pos_part, Option, none,
  some, List, [], ◌∷◌, ◌++◌, length, ltb, arith, ◌∙◌, ap, sym, Bool-cases, inl, inr, subst, ◌==◌,
  not, ◌&&◌,
}
use c_coding_examples_operat.Common.Run.{Run, ok, and_then, undefined}
use c_coding_examples_operat.JobScheduler.Job.{
  Word, Job, Scheduler, new_job, copy_words, fill_job, create_job,
}
use c_coding_examples_operat.JobScheduler.Queue.{
  is_run, queue_job, set_njobs, completed, finish_completion, job_complete, num_jobs_running, Ids,
  Ids-weaken, Ids-append_job, num_jobs_running-append_job, Completed, nobody, first,
  complete_in-Completed,
}
use c_coding_examples_operat.JobScheduler.Remove.{
  Removal, missing, refused, unlinked, remove_rest, remove_from, remove_job, running_jobs,
  running_jobs-remove_from, jobs_after, jobs_after-behind, finish_removal,
}
use c_coding_examples_operat.JobScheduler.Select.{run_job, select_job_to_run, check_jobs}
use c_coding_examples_operat.JobScheduler.Select.Choice.{
  Selected, empty, sleeps, nothing_waits, starts, check_jobs-Selected, check_jobs_empty,
  select_job_to_run-Selected,
}
use c_coding_examples_operat.JobScheduler.Steps.{
  Step, submit, njobs, remove, handler, select, wake, open_output, Reachable, start, step,
}

-- Ids grow along the list and are below the next one; there is room for a job, and no more jobs
-- run than the limit says.
pub record Inv (limit : ℕ) (s : Scheduler) : Type 0 where
  pub positive : 0 < s.njobs
  pub limited : s.njobs ≤ limit
  pub running : num_jobs_running s.jobs ≤ limit
  pub ids : Ids 0 s.jobs s.jobid

abbrev count : Job → ℕ
count j = if is_run j.state then 1 else 0

num_jobs_running-replaced :
    (before : List Job) (i j : Job) (after : List Job)
    → num_jobs_running (before ++ j ∷ after) + count i
      ≡ num_jobs_running (before ++ i ∷ after) + count j
unfolding num_jobs_running
num_jobs_running-replaced [] i j after = ground arith
num_jobs_running-replaced (k ∷ before) i j after =
    ground (arith, num_jobs_running-replaced before i j after)

Ids-replaced :
    (lo : ℕ) (before : List Job) (i j : Job) (after : List Job) (hi : ℕ)
    → j.id ≡ i.id
    → Ids lo (before ++ i ∷ after) hi
    → Ids lo (before ++ j ∷ after) hi
Ids-replaced lo [] i j after hi e (h, k) = (omega arith, subst (λ n. Ids n after hi) (sym e) k)
Ids-replaced lo (b ∷ before) i j after hi e (h, k) = (h, Ids-replaced b.id before i j after hi e k)

run_job_id : (pid : ℤ) (j : Job) → (run_job pid j).0.id ≡ j.id
run_job_id pid j = elim (Bool-cases (ltb_ℤ pid (pos 0))) [ inl e ↦ rw e | inr e ↦ rw e ]

count-run_job : (pid : ℤ) (j : Job) → count (run_job pid j).0 ≡ 1
count-run_job pid j = elim (Bool-cases (ltb_ℤ pid (pos 0))) [ inl e ↦ rw e | inr e ↦ rw e ]

-- A new job waits, with the next id; or the program is broken.
data Made (s : Scheduler) : Run Scheduler Job → Type 0 where
  made :
      (job : Job)
      → job.id ≡ s.jobid
      → is_run job.state ≡ false
      → Made s (ok job (record s { jobid = s.jobid + 1 }))
  broken : Made s undefined

fill_job-Made :
    (commands : Word) (o : Option (List Word)) (s : Scheduler) → Made s (fill_job commands o s)
unfolding fill_job
fill_job-Made commands none s = broken
fill_job-Made commands (some words) s =
    elim (Bool-cases (ltb (length commands) 8 && ltb (s.jobid + 1) (2 ^ 31))) [
      | inl e ↦ rw e (made (new_job s.jobid commands words) refl refl)
      | inr e ↦ rw e broken
    ]

num_jobs_running-length : (js : List Job) → num_jobs_running js ≡ length (running_jobs js)
unfolding num_jobs_running running_jobs
num_jobs_running-length [] = refl
num_jobs_running-length (j ∷ js) = ground (arith, num_jobs_running-length js)

Ids-remove_rest :
    (lo id : ℕ) (js : List Job) (hi : ℕ)
    → Ids lo js hi
    → Ids lo (jobs_after js (remove_rest id js)) hi
unfolding remove_rest
Ids-remove_rest lo id [] hi h = h
Ids-remove_rest lo id (j ∷ js) hi (h, k) = elim (Bool-cases (j.id == id)) [
  | inl e ↦ elim (Bool-cases (is_run j.state)) [
    | inl r ↦ rw (e, r) (h, k)
    | inr r ↦ rw (e, r) (Ids-weaken lo j.id js hi (omega arith) k)
  ]
  | inr e ↦ rw (e, jobs_after-behind j js (remove_rest id js)) (h, Ids-remove_rest j.id id js hi k)
]

Ids-remove_from :
    (lo id : ℕ) (js : List Job) (hi : ℕ)
    → Ids lo js hi
    → Ids lo (jobs_after js (remove_from id js)) hi
unfolding remove_from
Ids-remove_from lo id [] hi h = h
Ids-remove_from lo id (j ∷ js) hi (h, k) = elim (Bool-cases (j.id == id && not (is_run j.state))) [
  | inl e ↦ rw e (Ids-weaken lo j.id js hi (omega arith) k)
  | inr e ↦ rw (e, jobs_after-behind j js (remove_rest id js)) (h, Ids-remove_rest j.id id js hi k)
]

-- A run keeps the invariant when it returns.
module _ {A : Type 0} where
  abbrev Keeps : ℕ → Run Scheduler A → Type 0
  Keeps limit (ok a t) = Inv limit t
  Keeps limit _ = Unit {0}

module _ (limit : ℕ) (s : Scheduler) (inv : Inv limit s) where
  replaced-Inv :
      (before : List Job) (i j : Job) (after : List Job)
      → s.jobs ≡ before ++ i ∷ after
      → j.id ≡ i.id
      → num_jobs_running s.jobs + count j ≤ limit + count i
      → Inv limit (record s { jobs = before ++ j ∷ after })
  replaced-Inv before i j after e d h = record {
    positive = inv.positive;
    limited = inv.limited;
    running = omega (arith, h, num_jobs_running-replaced before i j after, ap num_jobs_running e);
    ids = Ids-replaced 0 before i j after s.jobid d (subst (λ js. Ids 0 js s.jobid) e inv.ids);
  }

  Completed-Keeps :
      {pid status : ℤ} (js : List Job) {o : Option (List Job)}
      → s.jobs ≡ js
      → Completed pid status js o
      → Keeps limit (finish_completion o s)
  Completed-Keeps js e (nobody a) = inv
  Completed-Keeps {status = status} js e (first before j after a h) =
      replaced-Inv before j (completed status j) after e refl (omega (arith, inv.running))

  Selected-Keeps : {pid : ℤ} {r : Run Scheduler (Option ℤ)} → Selected pid s r → Keeps limit r
  Selected-Keeps (empty e) = inv
  Selected-Keeps (sleeps h) = inv
  Selected-Keeps (nothing_waits h a) = inv
  Selected-Keeps {pid} (starts h before j after e a w) =
      replaced-Inv before j (run_job pid j).0 after e (run_job_id pid j)
        (omega (arith, h, inv.limited, count-run_job pid j))

  select-Keeps : (pid : ℤ) → Keeps limit (select_job_to_run pid s)
  select-Keeps pid = Selected-Keeps (select_job_to_run-Selected pid s)

  wake-Keeps : (pid : ℤ) (js : List Job) → s.jobs ≡ js → Keeps limit (check_jobs pid s)
  wake-Keeps pid [] e = rw (check_jobs_empty pid s inv.positive e) tt
  wake-Keeps pid (j ∷ js) e = Selected-Keeps (check_jobs-Selected pid s (λ n. cc))

  submit-Keeps :
      (commands : Word) (nwords : ℕ) (args : List (Option Word))
      → Keeps limit (and_then (create_job commands nwords args s) queue_job)
  unfolding create_job
  submit-Keeps commands nwords args = made-Keeps (fill_job-Made commands (copy_words nwords args) s)
    where
      made-Keeps : {r : Run Scheduler Job} → Made s r → Keeps limit (and_then r queue_job)
      made-Keeps broken = tt
      made-Keeps (made job e w) =
          unfold queue_job in
          record {
            positive = inv.positive;
            limited = inv.limited;
            running = omega (arith, inv.running, num_jobs_running-append_job s.jobs job w);
            ids = Ids-append_job 0 s.jobs job s.jobid e inv.ids;
          }

  njobs-Keeps : (n : ℤ) → pos_part n ≤ limit → Keeps limit (set_njobs n s)
  unfolding set_njobs
  njobs-Keeps n h = elim (Bool-cases (ltb_ℤ (pos 0) n)) [
    | inl e ↦
        rw e (record {
          positive = ground (arith, e);
          limited = h;
          running = inv.running;
          ids = inv.ids;
        })
    | inr e ↦ rw e inv
  ]

  removal-Keeps :
      (id : ℕ) (r : Removal)
      → Ids 0 (jobs_after s.jobs r) s.jobid
      → num_jobs_running (jobs_after s.jobs r) ≡ num_jobs_running s.jobs
      → Keeps limit (finish_removal id r s)
  removal-Keeps id missing i e = inv
  removal-Keeps id refused i e = inv
  removal-Keeps id (unlinked js) i e = record {
    positive = inv.positive;
    limited = inv.limited;
    running = omega (arith, inv.running, e);
    ids = i;
  }

  remove-Keeps : (id : ℕ) → Keeps limit (remove_job id s)
  unfolding remove_job
  remove-Keeps id =
      removal-Keeps id (remove_from id s.jobs) (Ids-remove_from 0 id s.jobs s.jobid inv.ids) (
        num_jobs_running-length (jobs_after s.jobs (remove_from id s.jobs))
        ∙ ap length (running_jobs-remove_from id s.jobs)
        ∙ sym (num_jobs_running-length s.jobs))

  handler-Keeps : (pid status : ℤ) → Keeps limit (job_complete pid status s)
  unfolding job_complete
  handler-Keeps pid status = Completed-Keeps s.jobs refl (complete_in-Completed pid status s.jobs)

Step-Inv : (limit : ℕ) (s t : Scheduler) → Inv limit s → Step limit s t → Inv limit t
Step-Inv limit s t inv (submit commands nwords args e) =
    subst (Keeps limit) e (submit-Keeps limit s inv commands nwords args)
Step-Inv limit s t inv (njobs n h e) = subst (Keeps limit) e (njobs-Keeps limit s inv n h)
Step-Inv limit s t inv (remove id e) = subst (Keeps limit) e (remove-Keeps limit s inv id)
Step-Inv limit s t inv (handler pid status e) =
    subst (Keeps limit) e (handler-Keeps limit s inv pid status)
Step-Inv limit s t inv (select pid e) = subst (Keeps limit) e (select-Keeps limit s inv pid)
Step-Inv limit s t inv (wake pid e) = subst (Keeps limit) e (wake-Keeps limit s inv pid s.jobs refl)
Step-Inv limit s t inv (open_output id) = record {
  positive = inv.positive;
  limited = inv.limited;
  running = inv.running;
  ids = inv.ids;
}

-- Whatever the order of submitted jobs, njobs and remove commands, selections, wake-ups and
-- finished programs: when no njobs command sets more than `limit`, which is at least 1, then no
-- more than `limit` jobs run at a time. The ids of the list grow and are below the next id, so
-- that no two jobs have the same id.
pub reachable-Inv : (limit : ℕ) (s : Scheduler) → 1 ≤ limit → Reachable limit s → Inv limit s
unfolding num_jobs_running
reachable-Inv limit s h (start outputs top_outputs) = record {
  positive = omega arith;
  limited = h;
  running = omega arith;
  ids = omega arith;
}
reachable-Inv limit s h (step {s = r} before st) =
    Step-Inv limit r s (reachable-Inv limit r h before) st
