-- ===== src/Fractal/Draw/Ahead.antt =====
-- What a thread of "03. Parallel Programming" still has to paint, and one round of its loops.
use c_coding_examples_operat.Common.{
  ℕ, ◌+◌, ◌-◌, ◌*◌, ◌<◌, ◌≤◌, ◌≡◌, ◌≢◌, refl, ltb, false, Option, none, some, arith, sym, ap, subst,
  ◌⊎◌, inl, inr, lt-cases, ℕ-cases, lt→ltb, ge→ltb,
}
use c_coding_examples_operat.Common.Run.{Run, ok, pure, and_then}
use c_coding_examples_operat.Bitmap.{Bitmap}
use c_coding_examples_operat.Fractal.Draw.{Coloring, Cursor, draw}
use c_coding_examples_operat.Fractal.Draw.Painted.{
  At, Paints, Paints-refl, Set, broken, set, set_pixel-Set,
}

-- Pixel (x, y) comes later in the loops.
abbrev pub Later : Cursor → ℕ → ℕ → Type 0
Later c x y = (y < c.stop) × ((c.row < y) ⊎ ((c.row ≡ y) × (c.column ≤ x)))

abbrev pub Ahead : Option Cursor → ℕ → ℕ → Type 0
Ahead none x y = ⊥
Ahead (some c) x y = Later c x y

abbrev pub StopsBy : ℕ → Option Cursor → Type 0
StopsBy h none = Unit {0}
StopsBy h (some c) = c.stop ≤ h

-- A bound for the rounds that a thread has still to do, in an image of width `w`
abbrev pub work : ℕ → Option Cursor → ℕ
work w none = 0
work w (some c) = 1 + ((c.stop - c.row) * (w + 2) + (w - c.column))

one_more_row : (k w : ℕ) → (k + 1) * (w + 2) ≡ k * (w + 2) + (w + 2)
one_more_row k w = grind arith

next_row_work : (w c r e : ℕ) → r < e → (e - (r + 1)) * (w + 2) + w < (e - r) * (w + 2) + (w - c)
next_row_work w c r e h =
    let more : e - r ≡ e - (r + 1) + 1 = omega arith in
    omega (arith, ap (λ (t : ℕ). t * (w + 2)) more, one_more_row (e - (r + 1)) w)

-- After one round: a pixel that was ahead is still ahead, or has its color.
pub record Drawn (color : Coloring) (c : Cursor) (m : Bitmap) (o : Option Cursor) (t : Bitmap)
    : Type 0 where
  pub paints : Paints color m t
  pub onward : (x y : ℕ) → x < m.width → Later c x y → At color t x y ⊎ Ahead o x y
  pub stops : StopsBy m.height o
  pub spent : work m.width o < work m.width (some c)

-- A round that returns has done so.
abbrev pub AllDrawn : Coloring → Cursor → Bitmap → Run Bitmap (Option Cursor) → Type 0
AllDrawn color c m (ok o t) = Drawn color c m o t
AllDrawn color c m _ = Unit {0}

module _ (color : Coloring) (c : Cursor) (m : Bitmap) (within : c.stop ≤ m.height) where
  after_pixel :
      (h : c.column < m.width)
      → c.row < c.stop
      → {r : Run Bitmap (Unit {0})} → Set color m c.column c.row h r
      → AllDrawn color c m (and_then r (λ _. pure (some (record c { column = c.column + 1 }))))
  after_pixel h k (broken e) = tt
  after_pixel h k (set t p a) = record {
    paints = p;
    onward = λ x y u l. elim (ℕ-cases x c.column) [
      | inl same ↦ elim (ℕ-cases y c.row) [
        | inl here ↦ inl (
            subst (λ n. At color t n y) (sym same)
              (subst (λ n. At color t c.column n) (sym here) a))
        | inr other ↦ inr (ground (arith, l))
      ]
      | inr other ↦ inr (ground (arith, l))
    ];
    stops = within;
    spent = omega (arith, h);
  }

  pub draw-AllDrawn : AllDrawn color c m (draw color c m)
  unfolding draw
  draw-AllDrawn = elim (lt-cases c.row c.stop) [
    | inr over ↦
        let e : ltb c.row c.stop ≡ false = ge→ltb c.row c.stop over in
        rw e (record {
          paints = Paints-refl color m;
          onward = λ x y u l. absurd (ground (arith, l));
          stops = tt;
          spent = omega arith;
        })
    | inl more ↦ elim (lt-cases c.column m.width) [
      | inl inside ↦
          rw (lt→ltb c.row c.stop more, lt→ltb c.column m.width inside)
            (after_pixel inside more (set_pixel-Set color m c.column c.row inside (omega arith)))
      | inr row_end ↦
          rw (lt→ltb c.row c.stop more, ge→ltb c.column m.width row_end)
            (record {
              paints = Paints-refl color m;
              onward = λ x y u l. inr (ground (arith, l));
              stops = within;
              spent = omega (arith, next_row_work m.width c.column c.row c.stop more);
            })
    ]
  ]

  set_pixel_returns :
      (h : c.column < m.width) {r : Run Bitmap (Unit {0})}
      → Set color m c.column c.row h r
      → color c.column c.row ≢ none
      → (t : Bitmap) × (r ≡ ok tt t)
  set_pixel_returns h (broken e) n = absurd (n e)
  set_pixel_returns h (set t p a) n = (t, refl)

  -- A round returns if the code can compute the colors.
  pub draw_returns :
      ((x y : ℕ) → x < m.width → y < m.height → color x y ≢ none)
      → (o : Option Cursor) × (t : Bitmap) × (draw color c m ≡ ok o t)
  unfolding draw
  draw_returns n = elim (lt-cases c.row c.stop) [
    | inr over ↦ (none, m, rw (ge→ltb c.row c.stop over))
    | inl more ↦ elim (lt-cases c.column m.width) [
      | inl inside ↦
          let (t, e) =
            set_pixel_returns inside (set_pixel-Set color m c.column c.row inside (omega arith))
              (n c.column c.row inside (omega arith)) in
          (
            some (record c { column = c.column + 1 }),
            t,
            rw (lt→ltb c.row c.stop more, lt→ltb c.column m.width inside, e),
          )
      | inr row_end ↦ (
        some (record c { column = 0; row = c.row + 1 }),
        m,
        rw (lt→ltb c.row c.stop more, ge→ltb c.column m.width row_end),
      )
    ]
  ]
