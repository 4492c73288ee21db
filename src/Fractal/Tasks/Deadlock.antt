-- ===== src/Fractal/Tasks/Deadlock.antt =====
-- A mutex that is never given back, in "03. Parallel Programming/fractaltask.c".
use c_coding_examples_operat.Common.{
  ℕ, ◌≡◌, ◌≢◌, [], refl, Bool, true, false, Option, none, some, arith, ◌∙◌, sym, ap, inl, inr,
  ℕ-cases, update, update_self, update_ne,
}
use c_coding_examples_operat.Bitmap.{Bitmap}
use c_coding_examples_operat.Fractal.Draw.{Coloring}
use c_coding_examples_operat.Fractal.Bands.{Floats}
use c_coding_examples_operat.Fractal.Tasks.{
  Pc, testing, locking, inside, taken, drawing, last_test, returned, cursor_of, System, after_draw,
  Move, enter, leave, lock, give_up, dequeue, unlock, paint, again, done, main_start, Steps, stay,
  later, Joined,
}

-- Only the thread that holds the mutex is between locking and unlocking.
abbrev has_mutex : Pc → Bool
has_mutex inside = true
has_mutex (taken t) = true
has_mutex _ = false

abbrev Exclusive : System → Type 0
Exclusive s = (k : ℕ) → has_mutex (s.pc k) ≡ true → s.holder ≡ some k

module _ (color : Coloring) (s : System) (before : Exclusive s) (i : ℕ) where
  -- A step that takes the mutex if it was free, keeps it, or gives it back.
  moved :
      (p : Pc) (h : Option ℕ)
      → (has_mutex p ≡ true → h ≡ some i)
      → ((k : ℕ) → k ≢ i → s.holder ≡ some k → h ≡ some k)
      → (k : ℕ) → has_mutex (update s.pc i p k) ≡ true
      → h ≡ some k
  moved p h own others k e = elim (ℕ-cases k i) [
    | inl same ↦
        own (ap has_mutex (sym (update_self s.pc i p) ∙ ap (update s.pc i p) (sym same)) ∙ e)
        ∙ ap some (sym same)
    | inr other ↦ others k other (before k (ap has_mutex (sym (update_ne s.pc i p k other)) ∙ e))
  ]

  Move-Exclusive : (t : System) → Move color s i t → Exclusive t
  Move-Exclusive t (enter e l) = moved locking s.holder (λ q. cc) (λ k n h. h)
  Move-Exclusive t (leave e l) = moved returned s.holder (λ q. cc) (λ k n h. h)
  Move-Exclusive t (lock e l) = moved inside (some i) (λ q. refl) (λ k n h. cc)
  Move-Exclusive t (give_up e l) = moved returned s.holder (λ q. cc) (λ k n h. h)
  Move-Exclusive t (dequeue u us e l) =
      moved (taken u) s.holder (λ q. before i (ap has_mutex e)) (λ k n h. h)
  Move-Exclusive t (unlock u e) =
      moved (drawing (cursor_of u)) none (λ q. cc)
        (λ k n h. absurd (n (ground (arith, before i, ap has_mutex e))))
  Move-Exclusive t (paint c none u e d) = moved last_test s.holder (λ q. cc) (λ k n h. h)
  Move-Exclusive t (paint c (some o) u e d) = moved (drawing o) s.holder (λ q. cc) (λ k n h. h)
  Move-Exclusive t (again e l) = moved testing s.holder (λ q. cc) (λ k n h. h)
  Move-Exclusive t (done e l) = moved returned s.holder (λ q. cc) (λ k n h. h)

Steps-Exclusive : (color : Coloring) (s t : System) → Exclusive s → Steps color s t → Exclusive t
Steps-Exclusive color s t e stay = e
Steps-Exclusive color s t e (later {t = u} i st mv) =
    Move-Exclusive color u (Steps-Exclusive color s u e st) i t mv

main_start-Exclusive :
    (fl : Floats) (count threads : ℕ) (m : Bitmap) → Exclusive (main_start fl count threads m)
main_start-Exclusive fl count threads m k e = ground arith

-- Thread `i` has returned with the mutex, and thread `j` waits for it.
pub record Lost (i j : ℕ) (s : System) : Type 0 where
  pub held : s.holder ≡ some i
  pub gone : s.pc i ≡ returned
  pub waits : s.pc j ≡ locking

-- A thread that has returned takes no step.
not_returned :
    (color : Coloring) (s : System) (i : ℕ) (t : System) → Move color s i t → s.pc i ≢ returned
not_returned color s i t (enter e l) r = cc
not_returned color s i t (leave e l) r = cc
not_returned color s i t (lock e l) r = cc
not_returned color s i t (give_up e l) r = cc
not_returned color s i t (dequeue u us e l) r = cc
not_returned color s i t (unlock u e) r = cc
not_returned color s i t (paint c o u e d) r = cc
not_returned color s i t (again e l) r = cc
not_returned color s i t (done e l) r = cc

-- Nor does a thread that waits for a mutex that is held.
not_waiting :
    (color : Coloring) (s : System) (i j : ℕ) (t : System)
    → Move color s j t
    → s.holder ≡ some i
    → s.pc j ≢ locking
not_waiting color s i j t (enter e l) h r = cc
not_waiting color s i j t (leave e l) h r = cc
not_waiting color s i j t (lock e l) h r = cc
not_waiting color s i j t (give_up e l) h r = cc
not_waiting color s i j t (dequeue u us e l) h r = cc
not_waiting color s i j t (unlock u e) h r = cc
not_waiting color s i j t (paint c o u e d) h r = cc
not_waiting color s i j t (again e l) h r = cc
not_waiting color s i j t (done e l) h r = cc

-- The step leaves the mutex with its holder, if another thread than the holder takes it.
holder_kept :
    (color : Coloring) (s : System) (i k : ℕ) (t : System)
    → Exclusive s
    → s.holder ≡ some i
    → k ≢ i
    → Move color s k t
    → (t.holder ≡ some i) × ((j : ℕ) → j ≢ k → t.pc j ≡ s.pc j)
holder_kept color s i k t x h n (enter e l) = (h, update_ne s.pc k locking)
holder_kept color s i k t x h n (leave e l) = (h, update_ne s.pc k returned)
holder_kept color s i k t x h n (lock e l) = cc
holder_kept color s i k t x h n (give_up e l) = (h, update_ne s.pc k returned)
holder_kept color s i k t x h n (dequeue u us e l) = (h, update_ne s.pc k (taken u))
holder_kept color s i k t x h n (unlock u e) = absurd (n (ground (arith, x k, ap has_mutex e)))
holder_kept color s i k t x h n (paint c o u e d) = (h, update_ne s.pc k (after_draw o))
holder_kept color s i k t x h n (again e l) = (h, update_ne s.pc k testing)
holder_kept color s i k t x h n (done e l) = (h, update_ne s.pc k returned)

Move-Lost :
    (color : Coloring) (s t : System) (i j k : ℕ)
    → Exclusive s
    → Lost i j s
    → Move color s k t
    → Lost i j t
Move-Lost color s t i j k x l mv =
    let other : k ≢ i = λ e. not_returned color s k t mv (ap s.pc e ∙ l.gone) in
    let elsewhere : k ≢ j = λ e. not_waiting color s i k t mv l.held (ap s.pc e ∙ l.waits) in
    let (held, others) = holder_kept color s i k t x l.held other mv in
    record {
      held = held;
      gone = others i (λ e. other (sym e)) ∙ l.gone;
      waits = others j (λ e. elsewhere (sym e)) ∙ l.waits;
    }

-- A step from under the mutex, where the list is empty, leaves the mutex with a thread that has
-- returned.
give_up-Lost :
    (color : Coloring) (s : System) (i j : ℕ) (t : System)
    → Exclusive s
    → s.pc i ≡ inside
    → s.tasks ≡ []
    → s.pc j ≡ locking
    → Move color s i t
    → Lost i j t
give_up-Lost color s i j t x e l w (enter f g) = cc
give_up-Lost color s i j t x e l w (leave f g) = cc
give_up-Lost color s i j t x e l w (lock f g) = cc
give_up-Lost color s i j t x e l w (give_up f g) =
    let other : j ≢ i = λ q. let r : locking ≡ inside = sym w ∙ ap s.pc q ∙ e in cc in
    record {
      held = x i (ap has_mutex e);
      gone = update_self s.pc i returned;
      waits = update_ne s.pc i returned j other ∙ w;
    }
give_up-Lost color s i j t x e l w (dequeue u us f g) = cc
give_up-Lost color s i j t x e l w (unlock u f) = cc
give_up-Lost color s i j t x e l w (paint c o u f g) = cc
give_up-Lost color s i j t x e l w (again f g) = cc
give_up-Lost color s i j t x e l w (done f g) = cc

Steps-Lost :
    (color : Coloring) (i j : ℕ) (s t : System)
    → Exclusive s
    → Lost i j s
    → Steps color s t
    → Lost i j t
Steps-Lost color i j s t x l stay = l
Steps-Lost color i j s t x l (later {t = v} k st mv) =
    Move-Lost color v t i j k (Steps-Exclusive color s v x st) (Steps-Lost color i j s v x l st) mv

-- In every state that the program comes to, where thread `i` is under the mutex and finds the list
-- empty, and thread `j` waits for the mutex: whatever step thread `i` takes then, and whatever steps
-- all threads take behind it, thread `i` has returned and holds the mutex, thread `j` still waits, and
-- main does not come behind its loop of pthread_join.
pub Steps-Joined :
    (color : Coloring) (fl : Floats) (count threads : ℕ) (m : Bitmap) (i j : ℕ) (s t u : System)
    → Steps color (main_start fl count threads m) s
    → s.pc i ≡ inside
    → s.tasks ≡ []
    → s.pc j ≡ locking
    → Move color s i t
    → Steps color t u
    → Lost i j u × (¬ Joined u)
Steps-Joined color fl count threads m i j s t u r e l w mv st =
    let before : Exclusive s =
      Steps-Exclusive color (main_start fl count threads m) s
        (main_start-Exclusive fl count threads m) r in
    let lost : Lost i j u =
      Steps-Lost color i j t u (Move-Exclusive color s before i t mv)
        (give_up-Lost color s i j t before e l w mv) st in
    (lost, λ joined. let q : locking ≡ returned = sym lost.waits ∙ joined j in cc)
