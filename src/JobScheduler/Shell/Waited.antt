-- ===== src/JobScheduler/Shell/Waited.antt =====
-- The command wait of "04. Job Scheduler/jobsched.c".
use c_coding_examples_operat.Common.{
  ℕ, zero, suc, ◌≡◌, ◌≢◌, refl, ◌∙◌, subst, ◌==◌, Bool-cases, inl, inr, true, false, Option, none,
  some, List, [], ◌∷◌, All, arith,
}
use mathlib.Core.Option.{map}
use c_coding_examples_operat.JobScheduler.Job.{Job, Scheduler}
use c_coding_examples_operat.JobScheduler.Shell.{
  is_done, Place, ready, exited, draining, spinning, find_job, after_find, job_at, look, Session,
  Stopped, background, woken, spins, During, begins, goes_on, wait_for,
}
use c_coding_examples_operat.JobScheduler.Shell.Drained.{IsDone, SoonReady}
use c_coding_examples_operat.JobScheduler.Shell.Kept.{Kept, KeptJob, Background-Kept}

-- The job at a position has the id.
abbrev At : ℕ → ℕ → List Job → Type 0
At k id js = (j : Job) × (job_at k js ≡ some j) × (j.id ≡ id)

-- A job of the list has the id and is done.
abbrev pub HasDone : ℕ → List Job → Type 0
HasDone id js =
    (k : ℕ) × (j : Job) × (job_at k js ≡ some j) × (j.id ≡ id) × (is_done j.state ≡ true)

-- What is known where the shell is
abbrev Waited : ℕ → Place → List Job → Type 0
Waited id ready js = HasDone id js
Waited id (spinning k) js = At k id js
Waited id exited js = Unit {0}
Waited id (draining k) js = ⊥

later-Waited :
    (id : ℕ) (j : Job) (js : List Job) (o : Option ℕ)
    → Waited id (after_find o) js
    → Waited id (after_find (map suc o)) (j ∷ js)
later-Waited id j js none h = tt
later-Waited id j js (some k) h = h

find_job-Waited : (id : ℕ) (js : List Job) → Waited id (after_find (find_job id js)) js
unfolding find_job
find_job-Waited id [] = tt
find_job-Waited id (j ∷ js) = elim (Bool-cases (j.id == id)) [
  | inl e ↦ let same : j.id ≡ id = ground (arith, e) in rw e (j, refl, same)
  | inr e ↦ rw e (later-Waited id j js (find_job id js) (find_job-Waited id js))
]

look-Waited : (id k : ℕ) (js : List Job) → At k id js → Waited id (look k (job_at k js)) js
look-Waited id k js (j, e, i) = elim (Bool-cases (is_done j.state)) [
  | inl d ↦ rw (e, d) (k, j, e, i, d)
  | inr d ↦ rw (e, d) (j, e, i)
]

job_at-Kept :
    (k : ℕ) (js ks : List Job) (j : Job)
    → Kept js ks
    → job_at k js ≡ some j
    → (i : Job) × (job_at k ks ≡ some i) × KeptJob j i
job_at-Kept zero [] ks j h e = cc
job_at-Kept (suc k) [] ks j h e = cc
job_at-Kept zero (x ∷ js) [] j h e = absurd h
job_at-Kept (suc k) (x ∷ js) [] j h e = absurd h
job_at-Kept zero (x ∷ js) (y ∷ ks) j (h, r) e =
    let same : x ≡ j = cc in (y, refl, subst (λ z. KeptJob z y) same h)
job_at-Kept (suc k) (x ∷ js) (y ∷ ks) j (h, r) e = job_at-Kept k js ks j r e

Waited-Kept :
    (id : ℕ) (p : Place) (js ks : List Job)
    → Kept js ks
    → p ≢ ready
    → Waited id p js
    → Waited id p ks
Waited-Kept id ready js ks h n w = absurd (n refl)
Waited-Kept id exited js ks h n w = tt
Waited-Kept id (draining k) js ks h n w = absurd w
Waited-Kept id (spinning k) js ks h n (j, e, i) =
    let (y, f, g) = job_at-Kept k js ks j h e in (y, f, g.0 ∙ i)

Stopped-Waited :
    (id : ℕ) (s t : Session)
    → Stopped s t
    → Waited id s.place s.scheduler.jobs
    → Waited id t.place t.scheduler.jobs
Stopped-Waited id s t (background {s = a} {t = b} {p} n h) w =
    Waited-Kept id p a.jobs b.jobs (Background-Kept a b h) n w
Stopped-Waited id s t (woken {s = a} k) w = absurd w
Stopped-Waited id s t (spins {s = a} k) w = look-Waited id k a.jobs w

During-Waited :
    (id : ℕ) (s t : Session)
    → Waited id s.place s.scheduler.jobs
    → During s t
    → Waited id t.place t.scheduler.jobs
During-Waited id s t w begins = w
During-Waited id s t w (goes_on {t = u} before st) =
    Stopped-Waited id u t st (During-Waited id s u w before)

job_at-IsDone : (k : ℕ) (js : List Job) (j : Job) → All IsDone js → job_at k js ≡ some j → IsDone j
job_at-IsDone zero [] j a e = cc
job_at-IsDone (suc k) [] j a e = cc
job_at-IsDone zero (x ∷ js) j (d, a) e = let same : x ≡ j = cc in subst IsDone same d
job_at-IsDone (suc k) (x ∷ js) j (d, a) e = job_at-IsDone k js j a e

Waited-SoonReady :
    (id : ℕ) (s : Scheduler) (p : Place)
    → Waited id p s.jobs
    → p ≢ exited
    → All IsDone s.jobs
    → SoonReady (record { scheduler = s; place = p })
Waited-SoonReady id s ready w n a = inl refl
Waited-SoonReady id s (spinning k) (j, e, i) n a =
    let d : IsDone j = job_at-IsDone k s.jobs j a e in
    inr (record { scheduler = s; place = look k (job_at k s.jobs) }, spins k, rw (e, d) refl)
Waited-SoonReady id s exited w n a = absurd (n refl)
Waited-SoonReady id s (draining k) w n a = absurd w

-- From the command wait on, whatever goes on in the meantime: when the shell is ready again, the queue
-- has a job with the id that is DONE; and once all jobs are DONE, a shell that has not left main is
-- ready, or it is after its next look at the job.
pub wait_for-HasDone :
    (id : ℕ) (s : Scheduler) (t : Session)
    → During (wait_for id s) t
    → (t.place ≡ ready → HasDone id t.scheduler.jobs)
      × (t.place ≢ exited → All IsDone t.scheduler.jobs → SoonReady t)
wait_for-HasDone id s t d =
    let waited : Waited id t.place t.scheduler.jobs =
      During-Waited id (wait_for id s) t (find_job-Waited id s.jobs) d in
    (
      (λ e. subst (λ p. Waited id p t.scheduler.jobs) e waited),
      (λ n a. Waited-SoonReady id t.scheduler t.place waited n a),
    )

find_job-none : (id : ℕ) (js : List Job) → All (λ (j : Job). j.id ≢ id) js → find_job id js ≡ none
unfolding find_job
find_job-none id [] a = refl
find_job-none id (j ∷ js) (n, a) =
    let other : (j.id == id) ≡ false = ground arith in rw (other, find_job-none id js a)

exited_stays : (s t : Session) → s.place ≡ exited → During s t → t.place ≡ exited
exited_stays s t e begins = e
exited_stays s t e (goes_on {t = u} before (background {p} n h)) = exited_stays s u e before
exited_stays s t e (goes_on {t = u} before (woken k)) =
    absurd (let h : draining k ≡ exited = exited_stays s u e before in cc)
exited_stays s t e (goes_on {t = u} before (spins k)) =
    absurd (let h : spinning k ≡ exited = exited_stays s u e before in cc)

-- wait for an id that no job of the queue has: the shell leaves main, and never reads a command again.
pub wait_for_missing :
    (id : ℕ) (s : Scheduler) (t : Session)
    → All (λ (j : Job). j.id ≢ id) s.jobs
    → During (wait_for id s) t
    → t.place ≡ exited
wait_for_missing id s t a d = exited_stays (wait_for id s) t (rw (find_job-none id s.jobs a) refl) d
