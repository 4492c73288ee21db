-- ===== src/Fractal/Tasks/Invariant.antt =====
-- What every step of the threads of "03. Parallel Programming/fractaltask.c" keeps.
use c_coding_examples_operat.Common.{
  ℕ, zero, suc, ◌+◌, ◌^◌, ◌<◌, ◌≤◌, ◌≡◌, refl, Option, none, some, List, [], ◌∷◌, All, arith, ◌∙◌,
  sym, ap, subst, ◌⊎◌, inl, inr, ℕ-cases, update, update_self, update_ne,
}
use c_coding_examples_operat.Bitmap.{Bitmap}
use c_coding_examples_operat.Fractal.Draw.{Coloring, Cursor}
use c_coding_examples_operat.Fractal.Draw.Painted.{At}
use c_coding_examples_operat.Fractal.Draw.Ahead.{Ahead, StopsBy, Drawn, AllDrawn, draw-AllDrawn}
use c_coding_examples_operat.Fractal.Bands.{Floats, y_start, y_end, y_end_le, bands_cover}
use c_coding_examples_operat.Fractal.Tasks.{
  Task, task_create, add_tasks, Pc, testing, locking, inside, taken, drawing, returned, cursor_of,
  System, go, after_draw, Move, enter, leave, lock, give_up, dequeue, unlock, paint, again, done,
  main_start, Steps, stay, later,
}

-- The rows that a thread has still got.
abbrev pub cursor_at : Pc → Option Cursor
cursor_at (taken t) = some (cursor_of t)
cursor_at (drawing c) = some c
cursor_at _ = none

cursor_at-after_draw : (o : Option Cursor) → cursor_at (after_draw o) ≡ o
cursor_at-after_draw none = refl
cursor_at-after_draw (some c) = refl

-- Row `y` belongs to a task of the list.
abbrev pub Listed : List Task → ℕ → Type 0
Listed [] y = ⊥
Listed (t ∷ ts) y = ((t.first_row ≤ y) × (y < t.end_row)) ⊎ Listed ts y

abbrev pub EndBy : ℕ → List Task → Type 0
EndBy h = All (λ (t : Task). t.end_row ≤ h)

-- A pixel that has not got its color is ahead of some thread, or its row is in a task of the list.
pub record Inv (color : Coloring) (m : Bitmap) (s : System) : Type 0 where
  pub same_width : s.image.width ≡ m.width
  pub same_height : s.image.height ≡ m.height
  pub ends : EndBy m.height s.tasks
  pub stops : (i : ℕ) → StopsBy m.height (cursor_at (s.pc i))
  pub covered :
      (x y : ℕ)
      → x < m.width
      → y < m.height
      → At color s.image x y ⊎ ((i : ℕ) × Ahead (cursor_at (s.pc i)) x y) ⊎ Listed s.tasks y

module _ (color : Coloring) (m : Bitmap) (s : System) (inv : Inv color m s) (i : ℕ) where
  -- A step of thread `i` that hands its pixels on: those that it had, and those of the tasks that it
  -- takes off the list.
  step-Inv :
      (p : Pc) (ts : List Task) (t : Bitmap) (h : Option ℕ) (n : ℕ)
      → t.width ≡ s.image.width
      → t.height ≡ s.image.height
      → EndBy m.height ts
      → StopsBy m.height (cursor_at p)
      → ((x y : ℕ) → x < m.width → At color s.image x y → At color t x y)
      → ((x y : ℕ)
          → x < m.width
          → Ahead (cursor_at (s.pc i)) x y
          → At color t x y ⊎ Ahead (cursor_at p) x y)
      → ((x y : ℕ) → x < m.width → Listed s.tasks y → Ahead (cursor_at p) x y ⊎ Listed ts y)
      → Inv color m
          (record { tasks = ts; task_num = n; holder = h; image = t; pc = update s.pc i p })
  step-Inv p ts t h n w e ends stops keeps onward listed = record {
    same_width = w ∙ inv.same_width;
    same_height = e ∙ inv.same_height;
    ends = ends;
    stops = λ k. elim (ℕ-cases k i) [
      | inl same ↦
          subst (λ n. StopsBy m.height (cursor_at (update s.pc i p n))) (sym same)
            (rw (update_self s.pc i p) stops)
      | inr other ↦ rw (update_ne s.pc i p k other) (inv.stops k)
    ];
    covered = λ x y a b. elim (inv.covered x y a b) [
      | inl q ↦ inl (keeps x y a q)
      | inr (inl (l, ahead)) ↦ elim (ℕ-cases l i) [
        | inl same ↦ elim (onward x y a (subst (λ n. Ahead (cursor_at (s.pc n)) x y) same ahead)) [
          | inl q ↦ inl q
          | inr on ↦ inr (inl (i, rw (update_self s.pc i p) on))
        ]
        | inr other ↦ inr (inl (l, rw (update_ne s.pc i p l other) ahead))
      ]
      | inr (inr q) ↦ elim (listed x y a q) [
        | inl on ↦ inr (inl (i, rw (update_self s.pc i p) on))
        | inr r ↦ inr (inr r)
      ]
    ];
  }

  -- A step that hands the same rows on, and leaves the list and the image.
  same_rows :
      (p : Pc) (h : Option ℕ)
      → cursor_at (s.pc i) ≡ cursor_at p
      → Inv color m (record (go s i p) { holder = h })
  same_rows p h e =
      step-Inv p s.tasks s.image h s.task_num refl refl inv.ends
        (subst (StopsBy m.height) e (inv.stops i)) (λ x y a q. q)
        (λ x y a q. inr (subst (λ o. Ahead o x y) e q)) (λ x y a q. inr q)

  dequeued :
      (t : Task) (ts : List Task)
      → s.pc i ≡ inside
      → s.tasks ≡ t ∷ ts
      → Inv color m (record (go s i (taken t)) { tasks = ts; task_num = s.task_num + 1 })
  dequeued t ts e l =
      let ends : EndBy m.height (t ∷ ts) = subst (EndBy m.height) l inv.ends in
      step-Inv (taken t) ts s.image s.holder (s.task_num + 1) refl refl ends.1 ends.0 (λ x y a q. q)
        (λ x y a q. absurd (subst (λ p. Ahead (cursor_at p) x y) e q))
        (λ x y a q. first_or_rest x y (subst (λ us. Listed us y) l q))
    where
      first_or_rest : (x y : ℕ) → Listed (t ∷ ts) y → Ahead (some (cursor_of t)) x y ⊎ Listed ts y
      first_or_rest x y (inl (a, b)) = inl (b, omega arith)
      first_or_rest x y (inr q) = inr q

  painted :
      (c : Cursor) (o : Option Cursor) (t : Bitmap)
      → s.pc i ≡ drawing c
      → Drawn color c s.image o t
      → Inv color m (record (go s i (after_draw o)) { image = t })
  painted c o t e d =
      step-Inv (after_draw o) s.tasks t s.holder s.task_num d.paints.same_width d.paints.same_height
        inv.ends
        (subst (StopsBy m.height) (sym (cursor_at-after_draw o))
          (subst (λ n. StopsBy n o) inv.same_height d.stops))
        (λ x y a q. d.paints.keeps x y (omega (arith, inv.same_width)) q)
        (λ x y a q.
          subst (λ u. At color t x y ⊎ Ahead u x y) (sym (cursor_at-after_draw o))
            (d.onward x y (omega (arith, inv.same_width))
              (subst (λ p. Ahead (cursor_at p) x y) e q)))
        (λ x y a q. inr q)

  drawing_stops : (c : Cursor) → s.pc i ≡ drawing c → c.stop ≤ s.image.height
  drawing_stops c e =
      let h : c.stop ≤ m.height = subst (λ p. StopsBy m.height (cursor_at p)) e (inv.stops i) in
      omega (arith, h, inv.same_height)

  pub Move-Inv : (t : System) → Move color s i t → Inv color m t
  Move-Inv t (enter e l) = same_rows locking s.holder (ap cursor_at e)
  Move-Inv t (leave e l) = same_rows returned s.holder (ap cursor_at e)
  Move-Inv t (lock e l) = same_rows inside (some i) (ap cursor_at e)
  Move-Inv t (give_up e l) = same_rows returned s.holder (ap cursor_at e)
  Move-Inv t (dequeue u us e l) = dequeued u us e l
  Move-Inv t (unlock u e) = same_rows (drawing (cursor_of u)) none (ap cursor_at e)
  Move-Inv t (paint c o u e d) =
      painted c o u e
        (subst (AllDrawn color c s.image) d (draw-AllDrawn color c s.image (drawing_stops c e)))
  Move-Inv t (again e l) = same_rows testing s.holder (ap cursor_at e)
  Move-Inv t (done e l) = same_rows returned s.holder (ap cursor_at e)

-- The list that main makes has a task for each row.
module _ (fl : Floats) (height count : ℕ) where
  add_tasks-kept :
      (k i y : ℕ) (ts : List Task) → Listed ts y → Listed (add_tasks fl height count k i ts) y
  unfolding add_tasks
  add_tasks-kept zero i y ts l = l
  add_tasks-kept (suc k) i y ts l =
      add_tasks-kept k (i + 1) y
        (task_create (y_start fl height count i) (y_end fl height count i) ∷ ts) (inr l)

  add_tasks-Listed :
      (k i j y : ℕ) (ts : List Task)
      → i ≤ j
      → j < i + k
      → y_start fl height count j ≤ y
      → y < y_end fl height count j
      → Listed (add_tasks fl height count k i ts) y
  unfolding add_tasks
  add_tasks-Listed zero i j y ts a b l h = absurd (omega arith)
  add_tasks-Listed (suc k) i j y ts a b l h = elim (ℕ-cases j i) [
    | inl same ↦
        add_tasks-kept k (i + 1) y
          (task_create (y_start fl height count i) (y_end fl height count i) ∷ ts)
          (inl (
            subst (λ n. y_start fl height count n ≤ y) same l,
            subst (λ n. y < y_end fl height count n) same h,
          ))
    | inr other ↦
        add_tasks-Listed k (i + 1) j y
          (task_create (y_start fl height count i) (y_end fl height count i) ∷ ts) (omega arith)
          (omega arith) l h
  ]

  add_tasks-EndBy :
      ((j : ℕ) → j < count → y_end fl height count j ≤ height)
      → (k i : ℕ) (ts : List Task) → i + k ≤ count
      → EndBy height ts
      → EndBy height (add_tasks fl height count k i ts)
  unfolding add_tasks
  add_tasks-EndBy h zero i ts a e = e
  add_tasks-EndBy h (suc k) i ts a e =
      add_tasks-EndBy h k (i + 1)
        (task_create (y_start fl height count i) (y_end fl height count i) ∷ ts) (omega arith)
        (h i (omega arith), e)

pub main_start-Inv :
    (color : Coloring) (fl : Floats) (count threads : ℕ) (m : Bitmap)
    → 0 < count
    → m.height ≤ 2 ^ 24
    → count ≤ 2 ^ 24
    → Inv color m (main_start fl count threads m)
main_start-Inv color fl count threads m some_tasks small few = record {
  same_width = refl;
  same_height = refl;
  ends =
      add_tasks-EndBy fl m.height count (y_end_le fl m.height count some_tasks small few) count 0 []
        (omega arith) tt;
  stops = λ i. ground arith;
  covered = λ x y a b.
      let (i, l, low, high) = bands_cover fl m.height count some_tasks small few y b in
      inr (
        inr
          (add_tasks-Listed fl m.height count count 0 i y [] (omega arith) (omega arith) low high));
}

pub Steps-Inv :
    (color : Coloring) (m : Bitmap) (s t : System) → Inv color m s → Steps color s t → Inv color m t
Steps-Inv color m s t inv stay = inv
Steps-Inv color m s t inv (later {t = u} i st mv) =
    Move-Inv color m u (Steps-Inv color m s u inv st) i t mv
