-- ===== src/JobScheduler/Job.antt =====
-- The data of "04. Job Scheduler/jobs.h", and create_job.
use c_coding_examples_operat.Common.{
  ℕ, zero, suc, ◌+◌, ◌^◌, ◌<◌, ◌≡◌, refl, ltb, ◌&&◌, if◌then◌else◌, Bool, ℤ, negsuc, Option, none,
  some, List, [], ◌∷◌, length, lt→ltb,
}
use c_coding_examples_operat.Common.Run.{ok, undefined, M}
use mathlib.Core.Option.{map}

-- The characters of a string, without the NUL at its end.
abbrev pub Word : Type 0
Word = List ℕ

pub data State : Type 0 where
  wait run done : State

pub record Job : Type 0 where
  pub id : ℕ
  pub pid : ℤ
  pub state : State
  pub exit : ℤ
  pub commands : Word
  pub words : List Word

-- The list of jobs by their `next`, and `njobs`, which is positive; `jobid` of create_job; and
-- the ids with a file ./outputs/output.<id>, and with a file ./output.<id>.
pub record Scheduler : Type 0 where
  pub jobs : List Job
  pub njobs : ℕ
  pub jobid : ℕ
  pub outputs : ℕ → Bool
  pub top_outputs : ℕ → Bool

abbrev pub job_queue_create : (ℕ → Bool) → (ℕ → Bool) → Scheduler
job_queue_create outputs top_outputs = record {
  jobs = [];
  njobs = 1;
  jobid = 1;
  outputs = outputs;
  top_outputs = top_outputs;
}

-- The loop that copies words[1], words[2], ... up to a NULL, into `cells` cells that also take a
-- NULL at the end. It is undefined when the cells, or those of `words`, are used up.
unfoldable pub copy_words : ℕ → List (Option Word) → Option (List Word)
copy_words zero ws = none
copy_words (suc cells) [] = none
copy_words (suc cells) (none ∷ ws) = some []
copy_words (suc cells) (some w ∷ ws) = map (λ (rest : List Word). w ∷ rest) (copy_words cells ws)

abbrev pub new_job : ℕ → Word → List Word → Job
new_job id commands words = record {
  id = id;
  pid = negsuc 0;
  state = wait;
  exit = negsuc 0;
  commands = commands;
  words = words;
}

-- `job->commands` has sizeof(char *) bytes, that is 8, and takes `commands` with its NUL.
-- `jobid` is an int.
unfoldable pub fill_job : Word → Option (List Word) → M Scheduler Job
fill_job commands none s = undefined
fill_job commands (some words) s =
    if ltb (length commands) 8 && ltb (s.jobid + 1) (2 ^ 31)
    then ok (new_job s.jobid commands words) (record s { jobid = s.jobid + 1 })
    else undefined

-- `args` are words[1], words[2], ... and `job->words` has `nwords` cells.
unfoldable pub create_job : Word → ℕ → List (Option Word) → M Scheduler Job
create_job commands nwords args = fill_job commands (copy_words nwords args)

-- The words that a command leaves in the array: its arguments, and then what was there.
abbrev pub with_args : List Word → List (Option Word) → List (Option Word)
with_args [] rest = rest
with_args (w ∷ ws) rest = some w ∷ with_args ws rest

copy_words-with_args :
    (args : List Word) (rest : List (Option Word))
    → copy_words (suc (length args)) (with_args args (none ∷ rest)) ≡ some args
unfolding copy_words
copy_words-with_args [] rest = refl
copy_words-with_args (w ∷ ws) rest = rw (copy_words-with_args ws rest)

copy_words_stale :
    (args : List Word) (w : Word) (rest : List (Option Word))
    → copy_words (suc (length args)) (with_args args (some w ∷ rest)) ≡ none
unfolding copy_words
copy_words_stale [] w rest = refl
copy_words_stale (v ∷ vs) w rest = rw (copy_words_stale vs w rest)

-- With a NULL behind the arguments, and a command text of less than 8 characters, create_job gives
-- a waiting job with the next id and the arguments as its words, and counts the id.
pub create_job_lem :
    (s : Scheduler) (commands : Word) (args : List Word) (rest : List (Option Word))
    → length commands < 8
    → s.jobid + 1 < 2 ^ 31
    → create_job commands (suc (length args)) (with_args args (none ∷ rest)) s
      ≡ ok (new_job s.jobid commands args) (record s { jobid = s.jobid + 1 })
unfolding create_job fill_job
create_job_lem s commands args rest h k =
    rw (
      copy_words-with_args args rest,
      lt→ltb (length commands) 8 h,
      lt→ltb (s.jobid + 1) (2 ^ 31) k,
    )

-- If the word behind the arguments is not NULL, as when an earlier command had more words, then
-- create_job writes behind the end of `job->words`.
pub create_job_stale :
    (s : Scheduler) (commands : Word) (args : List Word) (w : Word) (rest : List (Option Word))
    → create_job commands (suc (length args)) (with_args args (some w ∷ rest)) s ≡ undefined
unfolding create_job fill_job
create_job_stale s commands args w rest = rw (copy_words_stale args w rest)
