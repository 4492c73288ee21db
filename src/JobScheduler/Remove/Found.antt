-- ===== src/JobScheduler/Remove/Found.antt =====
-- What remove_job of "04. Job Scheduler/jobs.h" does for a job in the list, and for none.
use c_coding_examples_operat.Common.{
  ℕ, ◌<◌, ◌≤◌, ◌≡◌, ◌≢◌, refl, ◌==◌, if◌then◌else◌, Bool, true, false, pos, negsuc, update, List,
  [], ◌∷◌, ◌++◌, arith, ◌∙◌, ap, All, Bool-cases, inl, inr, subst,
}
use c_coding_examples_operat.Common.Run.{ok}
use c_coding_examples_operat.JobScheduler.Job.{Job, Scheduler}
use c_coding_examples_operat.JobScheduler.Queue.{is_run, Ids}
use c_coding_examples_operat.JobScheduler.Remove.{
  Removal, missing, refused, unlinked, behind, remove_rest, remove_from, finish_removal, remove_job,
}

pub Ids-member :
    (lo : ℕ) (before : List Job) (j : Job) (after : List Job) (hi : ℕ)
    → Ids lo (before ++ j ∷ after) hi
    → lo < j.id
Ids-member lo [] j after hi (h, k) = h
Ids-member lo (i ∷ before) j after hi (h, k) = omega (arith, Ids-member i.id before j after hi k)

-- The search behind the head, for a job that it meets.
abbrev rest_removal : List Job → Job → List Job → Removal
rest_removal before j after = if is_run j.state then refused else unlinked (before ++ after)

behind-rest_removal :
    (i : Job) (before : List Job) (j : Job) (after : List Job)
    → behind i (rest_removal before j after) ≡ rest_removal (i ∷ before) j after
behind-rest_removal i before j after = elim (Bool-cases (is_run j.state)) [
  | inl e ↦ rw e
  | inr e ↦ rw e
]

remove_rest_found :
    (lo : ℕ) (before : List Job) (j : Job) (after : List Job) (hi : ℕ)
    → Ids lo (before ++ j ∷ after) hi
    → remove_rest j.id (before ++ j ∷ after) ≡ rest_removal before j after
unfolding remove_rest
remove_rest_found lo [] j after hi h = let e : (j.id == j.id) ≡ true = ground arith in rw e
remove_rest_found lo (i ∷ before) j after hi (h, k) =
    let e : (i.id == j.id) ≡ false = ground (arith, Ids-member i.id before j after hi k) in
    rw (e, remove_rest_found i.id before j after hi k) (behind-rest_removal i before j after)

-- A running job at the head of the list is passed over as another job.
abbrev pub found_removal : List Job → Job → List Job → Removal
found_removal [] j after = if is_run j.state then missing else unlinked after
found_removal (i ∷ before) j after =
    if is_run j.state then refused else unlinked (i ∷ before ++ after)

remove_rest_missing :
    (id : ℕ) (js : List Job) → All (λ (j : Job). j.id ≢ id) js → remove_rest id js ≡ missing
unfolding remove_rest
remove_rest_missing id [] a = refl
remove_rest_missing id (j ∷ js) (h, a) =
    let e : (j.id == id) ≡ false = ground arith in rw (e, remove_rest_missing id js a)

later-Ids :
    (lo : ℕ) (js : List Job) (hi k : ℕ) → k ≤ lo → Ids lo js hi → All (λ (j : Job). j.id ≢ k) js
later-Ids lo [] hi k h i = tt
later-Ids lo (j ∷ js) hi k h (l, i) = (ground arith, later-Ids j.id js hi k (omega arith) i)

remove_from_found :
    (lo : ℕ) (before : List Job) (j : Job) (after : List Job) (hi : ℕ)
    → Ids lo (before ++ j ∷ after) hi
    → remove_from j.id (before ++ j ∷ after) ≡ found_removal before j after
unfolding remove_from
remove_from_found lo [] j after hi (h, k) =
    let e : (j.id == j.id) ≡ true = ground arith in
    elim (Bool-cases (is_run j.state)) [
      | inl r ↦
          rw (e, r, remove_rest_missing j.id after (later-Ids j.id after hi j.id (omega arith) k))
      | inr r ↦ rw (e, r)
    ]
remove_from_found lo (i ∷ before) j after hi (h, k) =
    let e : (i.id == j.id) ≡ false = ground (arith, Ids-member i.id before j after hi k) in
    rw (e, remove_rest_found i.id before j after hi k) (behind-rest_removal i before j after)

-- nothing is before the job
abbrev pub is_first : List Job → Bool
is_first [] = true
is_first (i ∷ before) = false

-- Behind the search: the list without the job, and its file ./output.<id> removed; or all as before.
finish_found :
    (s : Scheduler) (before : List Job) (j : Job) (after : List Job)
    → finish_removal j.id (found_removal before j after) s ≡ (
        if is_run j.state
        then ok (if is_first before then pos 1 else negsuc 0) s
        else ok
            (pos 0)
            (record s { jobs = before ++ after; top_outputs = update s.top_outputs j.id false }))
finish_found s [] j after = elim (Bool-cases (is_run j.state)) [ inl e ↦ rw e | inr e ↦ rw e ]
finish_found s (i ∷ before) j after = elim (Bool-cases (is_run j.state)) [
  | inl e ↦ rw e
  | inr e ↦ rw e
]

-- Let the ids grow along the list, up to the next id. A job in the list that does not run is taken
-- out of it, its file ./output.<id> is removed, the other jobs stay in their order, and 0 is returned.
-- For a job that runs nothing changes; then remove_job returns -1, but 1, as for a job that is not
-- there, if it is the first of the list.
pub remove_job_found :
    (s : Scheduler) (before : List Job) (j : Job) (after : List Job)
    → s.jobs ≡ before ++ j ∷ after
    → Ids 0 s.jobs s.jobid
    → remove_job j.id s ≡ (
        if is_run j.state
        then ok (if is_first before then pos 1 else negsuc 0) s
        else ok
            (pos 0)
            (record s { jobs = before ++ after; top_outputs = update s.top_outputs j.id false }))
unfolding remove_job
remove_job_found s before j after e ids =
    ap (λ (r : Removal). finish_removal j.id r s)
      (ap (remove_from j.id) e
        ∙ remove_from_found 0 before j after s.jobid (subst (λ js. Ids 0 js s.jobid) e ids))
    ∙ finish_found s before j after

remove_from_missing :
    (id : ℕ) (js : List Job) → All (λ (j : Job). j.id ≢ id) js → remove_from id js ≡ missing
unfolding remove_from
remove_from_missing id [] a = refl
remove_from_missing id (j ∷ js) (h, a) =
    let e : (j.id == id) ≡ false = ground arith in rw (e, remove_rest_missing id js a)

-- Without a job of that id, remove_job returns 1 and changes nothing.
pub remove_job_missing :
    (id : ℕ) (s : Scheduler) → All (λ (j : Job). j.id ≢ id) s.jobs → remove_job id s ≡ ok (pos 1) s
unfolding remove_job
remove_job_missing id s a = rw (remove_from_missing id s.jobs a)
