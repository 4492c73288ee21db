-- ===== src/JobScheduler/Shell/Drained.antt =====
-- The command drain of "04. Job Scheduler/jobsched.c".
use c_coding_examples_operat.Common.{
  ℕ, zero, suc, ◌+◌, ◌≡◌, refl, subst, Bool-cases, inl, inr, true, Option, none, some, List, [],
  ◌∷◌, All, arith, ◌⊎◌,
}
use mathlib.Core.Option.{map}
use c_coding_examples_operat.JobScheduler.Job.{Job, Scheduler}
use c_coding_examples_operat.JobScheduler.Shell.{
  is_done, Place, ready, exited, draining, spinning, drain_walk, after_walk, jobs_from, drain_from,
  Session, Stopped, background, woken, spins, During, begins, goes_on, drain,
}
use c_coding_examples_operat.JobScheduler.Shell.Kept.{Kept, Background-Kept}

abbrev pub IsDone : Job → Type 0
IsDone j = is_done j.state ≡ true

-- The first `k` jobs are done.
abbrev DoneBefore : ℕ → List Job → Type 0
DoneBefore zero js = Unit {0}
DoneBefore (suc k) [] = Unit {0}
DoneBefore (suc k) (j ∷ js) = IsDone j × DoneBefore k js

-- How far drain is
abbrev Progress : Place → List Job → Type 0
Progress ready js = All IsDone js
Progress (draining k) js = DoneBefore k js
Progress _ js = ⊥

abbrev Passed : Option ℕ → List Job → Type 0
Passed none js = All IsDone js
Passed (some n) js = DoneBefore n js

Passed-suc :
    (j : Job) (js : List Job) (o : Option ℕ) → IsDone j → Passed o js → Passed (map suc o) (j ∷ js)
Passed-suc j js none d p = (d, p)
Passed-suc j js (some n) d p = (d, p)

drain_walk-Passed : (js : List Job) → Passed (drain_walk js) js
unfolding drain_walk
drain_walk-Passed [] = tt
drain_walk-Passed (j ∷ js) = elim (Bool-cases (is_done j.state)) [
  | inl e ↦ rw e (Passed-suc j js (drain_walk js) e (drain_walk-Passed js))
  | inr e ↦ rw e tt
]

shifted : (k n : ℕ) → suc (k + n) ≡ suc k + n
shifted k n = omega arith

Passed-Progress :
    (k : ℕ) (js : List Job) (o : Option ℕ)
    → DoneBefore k js
    → Passed o (jobs_from k js)
    → Progress (after_walk k o) js
unfolding jobs_from
Passed-Progress zero js none d p = p
Passed-Progress zero js (some n) d p =
    subst (λ m. DoneBefore m js) (let e : n ≡ 0 + n = omega arith in e) p
Passed-Progress (suc k) [] none d p = tt
Passed-Progress (suc k) [] (some n) d p = subst (λ m. DoneBefore m []) (shifted k n) tt
Passed-Progress (suc k) (j ∷ js) none (d, e) p = (d, Passed-Progress k js none e p)
Passed-Progress (suc k) (j ∷ js) (some n) (d, e) p =
    subst (λ m. DoneBefore m (j ∷ js)) (shifted k n) (d, Passed-Progress k js (some n) e p)

drain_from-Progress : (k : ℕ) (js : List Job) → DoneBefore k js → Progress (drain_from k js) js
drain_from-Progress k js d =
    Passed-Progress k js (drain_walk (jobs_from k js)) d (drain_walk-Passed (jobs_from k js))

DoneBefore-Kept : (k : ℕ) (js ks : List Job) → Kept js ks → DoneBefore k js → DoneBefore k ks
DoneBefore-Kept zero js ks h d = tt
DoneBefore-Kept (suc k) [] [] h d = tt
DoneBefore-Kept (suc k) [] (y ∷ ks) h d = absurd h
DoneBefore-Kept (suc k) (j ∷ js) [] h d = absurd h
DoneBefore-Kept (suc k) (j ∷ js) (y ∷ ks) (h, r) (d, e) = (h.1 d, DoneBefore-Kept k js ks r e)

All-Kept : (js ks : List Job) → Kept js ks → All IsDone js → All IsDone ks
All-Kept [] [] h d = tt
All-Kept [] (y ∷ ks) h d = absurd h
All-Kept (j ∷ js) [] h d = absurd h
All-Kept (j ∷ js) (y ∷ ks) (h, r) (d, e) = (h.1 d, All-Kept js ks r e)

Progress-Kept : (p : Place) (js ks : List Job) → Kept js ks → Progress p js → Progress p ks
Progress-Kept ready js ks h d = All-Kept js ks h d
Progress-Kept (draining k) js ks h d = DoneBefore-Kept k js ks h d
Progress-Kept exited js ks h d = absurd d
Progress-Kept (spinning k) js ks h d = absurd d

Stopped-Progress :
    (s t : Session)
    → Stopped s t
    → Progress s.place s.scheduler.jobs
    → Progress t.place t.scheduler.jobs
Stopped-Progress s t (background {s = a} {t = b} {p} n h) d =
    Progress-Kept p a.jobs b.jobs (Background-Kept a b h) d
Stopped-Progress s t (woken {s = a} k) d = drain_from-Progress k a.jobs d
Stopped-Progress s t (spins {s = a} k) d = absurd d

During-Progress :
    (s t : Session)
    → Progress s.place s.scheduler.jobs
    → During s t
    → Progress t.place t.scheduler.jobs
During-Progress s t d begins = d
During-Progress s t d (goes_on {t = u} before st) =
    Stopped-Progress u t st (During-Progress s u d before)

drain_walk-none : (js : List Job) → All IsDone js → drain_walk js ≡ none
unfolding drain_walk
drain_walk-none [] a = refl
drain_walk-none (j ∷ js) (d, a) = rw (d, drain_walk-none js a)

jobs_from-All : (k : ℕ) (js : List Job) → All IsDone js → All IsDone (jobs_from k js)
unfolding jobs_from
jobs_from-All zero js a = a
jobs_from-All (suc k) [] a = tt
jobs_from-All (suc k) (j ∷ js) (d, a) = jobs_from-All k js a

-- The shell is ready, or its next step makes it ready.
abbrev pub SoonReady : Session → Type 0
SoonReady t = (t.place ≡ ready) ⊎ ((u : Session) × Stopped t u × (u.place ≡ ready))

Progress-SoonReady :
    (s : Scheduler) (p : Place)
    → Progress p s.jobs
    → All IsDone s.jobs
    → SoonReady (record { scheduler = s; place = p })
Progress-SoonReady s ready d a = inl refl
Progress-SoonReady s (draining k) d a = inr (
  record { scheduler = s; place = drain_from k s.jobs },
  woken k,
  rw (drain_walk-none (jobs_from k s.jobs) (jobs_from-All k s.jobs a)) refl,
)
Progress-SoonReady s exited d a = absurd d
Progress-SoonReady s (spinning k) d a = absurd d

-- From the command drain on, in whatever order jobs are started and completed and the condition
-- variable is signalled: when the shell is ready again, all jobs in the queue are DONE; and once all
-- of them are DONE, the shell is ready, or it is as soon as it wakes.
pub drain-IsDone :
    (s : Scheduler) (t : Session)
    → During (drain s) t
    → (t.place ≡ ready → All IsDone t.scheduler.jobs) × (All IsDone t.scheduler.jobs → SoonReady t)
drain-IsDone s t d =
    let progress : Progress t.place t.scheduler.jobs =
      During-Progress (drain s) t (drain_from-Progress 0 s.jobs tt) d in
    (
      (λ e. subst (λ p. Progress p t.scheduler.jobs) e progress),
      (λ a. Progress-SoonReady t.scheduler t.place progress a),
    )
