-- ===== src/Fractal/Tasks/Finished.antt =====
-- When all threads of "03. Parallel Programming/fractaltask.c" have returned, the image is complete.
use c_coding_examples_operat.Common.{
  ℕ, ◌^◌, ◌<◌, ◌≤◌, ◌≡◌, none, some, List, [], arith, ◌∙◌, sym, ap, subst, inl, inr, ℕ-cases,
  update, update_self, update_ne,
}
use c_coding_examples_operat.Bitmap.{Bitmap}
use c_coding_examples_operat.Fractal.Draw.{Coloring}
use c_coding_examples_operat.Fractal.Draw.Serial.{Complete}
use c_coding_examples_operat.Fractal.Draw.Ahead.{Ahead}
use c_coding_examples_operat.Fractal.Bands.{Floats}
use c_coding_examples_operat.Fractal.Tasks.{
  Task, Pc, testing, locking, inside, taken, drawing, last_test, returned, cursor_of, System, Move,
  enter, leave, lock, give_up, dequeue, unlock, paint, again, done, main_start, Steps, stay, later,
}
use c_coding_examples_operat.Fractal.Tasks.Invariant.{
  cursor_at, Listed, Inv, main_start-Inv, Steps-Inv,
}

-- A thread only returns when the list is empty, and then it stays empty.
abbrev Emptied : ℕ → System → Type 0
Emptied threads s = (k : ℕ) → k < threads → s.pc k ≡ returned → s.tasks ≡ []

module _ (color : Coloring) (threads : ℕ) (s : System) (before : Emptied threads s) (i : ℕ) where
  moved :
      (p : Pc) (ts : List Task)
      → (p ≡ returned → ts ≡ [])
      → (s.tasks ≡ [] → ts ≡ [])
      → (k : ℕ) → k < threads
      → update s.pc i p k ≡ returned
      → ts ≡ []
  moved p ts own others k l e = elim (ℕ-cases k i) [
    | inl same ↦ own (sym (update_self s.pc i p) ∙ ap (update s.pc i p) (sym same) ∙ e)
    | inr other ↦ others (before k l (sym (update_ne s.pc i p k other) ∙ e))
  ]

  Move-Emptied : (t : System) → Move color s i t → Emptied threads t
  Move-Emptied t (enter e l) = moved locking s.tasks (λ q. cc) (λ q. q)
  Move-Emptied t (leave e l) = moved returned s.tasks (λ q. l) (λ q. q)
  Move-Emptied t (lock e l) = moved inside s.tasks (λ q. cc) (λ q. q)
  Move-Emptied t (give_up e l) = moved returned s.tasks (λ q. l) (λ q. q)
  Move-Emptied t (dequeue u us e l) = moved (taken u) us (λ q. cc) (λ q. cc)
  Move-Emptied t (unlock u e) = moved (drawing (cursor_of u)) s.tasks (λ q. cc) (λ q. q)
  Move-Emptied t (paint c none u e d) = moved last_test s.tasks (λ q. cc) (λ q. q)
  Move-Emptied t (paint c (some o) u e d) = moved (drawing o) s.tasks (λ q. cc) (λ q. q)
  Move-Emptied t (again e l) = moved testing s.tasks (λ q. cc) (λ q. q)
  Move-Emptied t (done e l) = moved returned s.tasks (λ q. l) (λ q. q)

Steps-Emptied :
    (color : Coloring) (threads : ℕ) (s t : System)
    → Emptied threads s
    → Steps color s t
    → Emptied threads t
Steps-Emptied color threads s t e stay = e
Steps-Emptied color threads s t e (later {t = u} i st mv) =
    Move-Emptied color threads u (Steps-Emptied color threads s u e st) i t mv

main_start-Emptied :
    (fl : Floats) (count threads : ℕ) (m : Bitmap) → Emptied threads (main_start fl count threads m)
main_start-Emptied fl count threads m k l e = ground arith

-- With at least one task, and at most 2^24 rows and tasks, and one thread or more: in
-- whatever order they take their steps, when all of them have returned, every pixel of the image has its color.
pub tasks-Complete :
    (color : Coloring) (fl : Floats) (count threads : ℕ) (m : Bitmap) (s : System)
    → 0 < count
    → 0 < threads
    → m.height ≤ 2 ^ 24
    → count ≤ 2 ^ 24
    → Steps color (main_start fl count threads m) s
    → ((i : ℕ) → s.pc i ≡ returned)
    → Complete color m s.image
tasks-Complete color fl count threads m s h g small few r all_returned =
    let inv : Inv color m s =
      Steps-Inv color m (main_start fl count threads m) s
        (main_start-Inv color fl count threads m h small few) r in
    let no_tasks : s.tasks ≡ [] =
      Steps-Emptied color threads (main_start fl count threads m) s
        (main_start-Emptied fl count threads m) r 0 g (all_returned 0) in
    record {
      same_width = inv.same_width;
      same_height = inv.same_height;
      painted = λ x y a b. elim (inv.covered x y a b) [
        | inl p ↦ p
        | inr (inl (i, ahead)) ↦
            absurd (subst (λ p. Ahead (cursor_at p) x y) (all_returned i) ahead)
        | inr (inr l) ↦ absurd (subst (λ ts. Listed ts y) no_tasks l)
      ];
    }
