-- ===== src/Fractal/Threads/Termination.antt =====
-- The threads of "03. Parallel Programming/fractalthread.c" come to their end.
use c_coding_examples_operat.Common.{
  ℕ, zero, suc, ◌+◌, ◌^◌, ◌<◌, ◌≤◌, ◌≡◌, refl, Option, some, arith, ◌∙◌, sym, ap, subst, inl, inr,
  ℕ-cases, update, update_self, update_ne,
}
use c_coding_examples_operat.Bitmap.{Bitmap}
use c_coding_examples_operat.Fractal.Draw.{Coloring, Cursor}
use c_coding_examples_operat.Fractal.Draw.Serial.{Colored}
use c_coding_examples_operat.Fractal.Draw.Ahead.{work, Drawn, AllDrawn, draw-AllDrawn, draw_returns}
use c_coding_examples_operat.Fractal.Bands.{Floats}
use c_coding_examples_operat.Fractal.Threads.{
  Threads, create_threads, Step, pick, Reach, start, later, Inv, stops_at, Step-Inv, Reach-Inv,
}

-- The work of the threads below `n`, in an image of width `w`
abbrev pub total : ℕ → ℕ → (ℕ → Option Cursor) → ℕ
total w zero f = 0
total w (suc n) f = work w (f n) + total w n f

total-update_above :
    (w n i : ℕ) (f : ℕ → Option Cursor) (o : Option Cursor)
    → n ≤ i
    → total w n (update f i o) ≡ total w n f
total-update_above w zero i f o h = refl
total-update_above w (suc n) i f o h =
    let e : update f i o n ≡ f n = update_ne f i o n (λ q. omega (arith, q)) in
    rw e (omega (arith, total-update_above w n i f o (omega arith)))

total-update :
    (w n i : ℕ) (f : ℕ → Option Cursor) (o : Option Cursor)
    → i < n
    → total w n (update f i o) + work w (f i) ≡ total w n f + work w o
total-update w zero i f o h = absurd (omega arith)
total-update w (suc n) i f o h = elim (ℕ-cases i n) [
  | inl same ↦
      let e : update f i o n ≡ o = ap (update f i o) (sym same) ∙ update_self f i o in
      rw (e, same) (omega (arith, total-update_above w n n f o (omega arith)))
  | inr other ↦
      let e : update f i o n ≡ f n = update_ne f i o n (λ q. other (sym q)) in
      rw e (omega (arith, total-update w n i f o (omega arith)))
]

-- From `s` to another state in a number of steps
pub data Steps (color : Coloring) (s : Threads) : ℕ → Threads → Type 0 where
  stay : Steps color s zero s
  more : {n : ℕ} {t u : Threads} → Steps color s n t → Step color t u → Steps color s (suc n) u

-- Only threads that main has created take steps.
abbrev Created : ℕ → Threads → Type 0
Created count s = (i : ℕ) (c : Cursor) → s.cursor i ≡ some c → i < count

module _ (color : Coloring) (count : ℕ) (m : Bitmap) where
  Step-Created : (s t : Threads) → Created count s → Step color s t → Created count t
  Step-Created s t cr (pick i c o u e d) = λ k c' e'. elim (ℕ-cases k i) [
    | inl same ↦ subst (λ n. n < count) (sym same) (cr i c e)
    | inr other ↦ cr k c' (sym (update_ne s.cursor i o k other) ∙ e')
  ]

  Step_spends :
      (s t : Threads)
      → Inv color m s
      → Created count s
      → Step color s t
      → total m.width count t.cursor < total m.width count s.cursor
  Step_spends s t inv cr (pick i c o u e d) =
      let drawn : Drawn color c s.image o u =
        subst (AllDrawn color c s.image) d
          (draw-AllDrawn color c s.image (stops_at color m s inv i c e)) in
      let less : work m.width o < work m.width (some c) =
        subst (λ w. work w o < work w (some c)) inv.same_width drawn.spent in
      omega (arith, less, total-update m.width count i s.cursor o (cr i c e), ap (work m.width) e)

  Steps-spend :
      (s t : Threads) (n : ℕ)
      → Inv color m s
      → Created count s
      → Steps color s n t
      → (n + total m.width count t.cursor ≤ total m.width count s.cursor)
        × Inv color m t
        × Created count t
  Steps-spend s t zero inv cr stay = (omega arith, inv, cr)
  Steps-spend s t (suc n) inv cr (more {t = u} st next) =
      let (h, inv_u, cr_u) = Steps-spend s u n inv cr st in
      (
        omega (arith, h, Step_spends u t inv_u cr_u next),
        Step-Inv color m u t inv_u next,
        Step-Created u t cr_u next,
      )

create_threads-Created :
    (fl : Floats) (count : ℕ) (m : Bitmap) → Created count (create_threads fl count m)
create_threads-Created fl count m i c e = ground arith

Reach-Created :
    (color : Coloring) (fl : Floats) (count : ℕ) (m : Bitmap) (s : Threads)
    → Reach color fl count m s
    → Created count s
Reach-Created color fl count m s start = create_threads-Created fl count m
Reach-Created color fl count m s (later {s = u} r st) =
    Step-Created color count m u s (Reach-Created color fl count m u r) st

Colored-same :
    (color : Coloring) (m t : Bitmap)
    → t.width ≡ m.width
    → t.height ≡ m.height
    → Colored color m
    → Colored color t
Colored-same color m t e f c x y a b = c x y (omega (arith, e)) (omega (arith, f))

-- With at least one thread, at most 2^24 rows and threads, and colors that the code can compute: from
-- every state that the threads reach, however they are scheduled, no more steps than the work that
-- was left are taken; and a thread that has not returned can take a step.
pub threads_terminate :
    (color : Coloring) (fl : Floats) (count : ℕ) (m : Bitmap) (s : Threads)
    → 0 < count
    → m.height ≤ 2 ^ 24
    → count ≤ 2 ^ 24
    → Colored color m
    → Reach color fl count m s
    → ((n : ℕ) (t : Threads) → Steps color s n t → n ≤ total m.width count s.cursor)
      × ((i : ℕ) (c : Cursor) → s.cursor i ≡ some c → (t : Threads) × Step color s t)
threads_terminate color fl count m s h small few colored r =
    let inv : Inv color m s = Reach-Inv color fl count m s h small few r in
    (
      (λ n t st.
          omega (
            arith,
            (Steps-spend color count m s t n inv (Reach-Created color fl count m s r) st).0,
          )),
      (λ i c e.
          let (o, t, d) =
            draw_returns color c s.image (stops_at color m s inv i c e)
              (Colored-same color m s.image inv.same_width inv.same_height colored) in
          (record { image = t; cursor = update s.cursor i o }, pick i c o t e d)),
    )
