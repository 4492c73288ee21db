-- ===== src/Fractal/Threads.antt =====
-- "03. Parallel Programming/fractalthread.c": each thread draws one band of the image. The threads
-- take their steps, a pixel at a time, in any order.
pub mod Termination
use c_coding_examples_operat.Common.{
  ℕ, zero, suc, ◌+◌, ◌*◌, ◌^◌, ◌<◌, ◌≤◌, ◌≡◌, ◌≢◌, refl, ltb, if◌then◌else◌, false, ℤ, pos, Option,
  none, some, arith, ◌∙◌, sym, ap, subst, ◌⊎◌, inl, inr, ℕ-cases, update, update_self, update_ne,
  lt→ltb, ge→ltb, lt-cases,
}
use c_coding_examples_operat.Common.Run.{Run, ok}
use c_coding_examples_operat.Bitmap.{Bitmap, bitmap_get}
use c_coding_examples_operat.Bitmap.Pixel.{bitmap_get_inside}
use c_coding_examples_operat.Fractal.Draw.{Coloring, Cursor, draw, compute_image}
use c_coding_examples_operat.Fractal.Draw.Painted.{At}
use c_coding_examples_operat.Fractal.Draw.Serial.{Complete, Colored, compute_image-Complete}
use c_coding_examples_operat.Fractal.Draw.Ahead.{Ahead, StopsBy, Drawn, AllDrawn, draw-AllDrawn}
use c_coding_examples_operat.Fractal.Bands.{Floats, y_start, y_end, y_end_le, bands_cover}

-- The image, and where each thread is; none for a thread that has returned.
pub record Threads : Type 0 where
  pub image : Bitmap
  pub cursor : ℕ → Option Cursor

-- The band of thread `i`, as `struct image_arg` hands it over.
abbrev pub band : Floats → ℕ → ℕ → ℕ → Cursor
band fl height count i = record {
  column = 0;
  row = y_start fl height count i;
  stop = y_end fl height count i;
}

-- main has created `count` threads; none of them has painted yet.
abbrev pub create_threads : Floats → ℕ → Bitmap → Threads
create_threads fl count m = record {
  image = m;
  cursor = λ i. if ltb i count then some (band fl m.height count i) else none;
}

pub data Step (color : Coloring) (s : Threads) : Threads → Type 0 where
  pick :
      (i : ℕ) (c : Cursor) (o : Option Cursor) (m : Bitmap)
      → s.cursor i ≡ some c
      → draw color c s.image ≡ ok o m
      → Step color s (record { image = m; cursor = update s.cursor i o })

pub data Reach (color : Coloring) (fl : Floats) (count : ℕ) (m : Bitmap) : Threads → Type 0 where
  start : Reach color fl count m (create_threads fl count m)
  later : {s t : Threads} → Reach color fl count m s → Step color s t → Reach color fl count m t

-- A pixel that has not got its color is ahead of some thread.
pub record Inv (color : Coloring) (m : Bitmap) (s : Threads) : Type 0 where
  pub same_width : s.image.width ≡ m.width
  pub same_height : s.image.height ≡ m.height
  pub stops : (i : ℕ) → StopsBy m.height (s.cursor i)
  pub covered :
      (x y : ℕ)
      → x < m.width
      → y < m.height
      → At color s.image x y ⊎ ((i : ℕ) × Ahead (s.cursor i) x y)

module _ (fl : Floats) (count : ℕ) (m : Bitmap) (some_threads : 0 < count)
    (small : m.height ≤ 2 ^ 24) (few : count ≤ 2 ^ 24) where
  band_stops : (i : ℕ) → StopsBy m.height ((create_threads fl count m).cursor i)
  band_stops i = elim (lt-cases i count) [
    | inl l ↦ rw (lt→ltb i count l) (y_end_le fl m.height count some_threads small few i l)
    | inr g ↦ rw (ge→ltb i count g) tt
  ]

  pub start-Inv : (color : Coloring) → Inv color m (create_threads fl count m)
  start-Inv color = record {
    same_width = refl;
    same_height = refl;
    stops = band_stops;
    covered = λ x y h k.
        let (i, l, low, high) = bands_cover fl m.height count some_threads small few y k in
        inr (i, rw (lt→ltb i count l) (high, omega arith));
  }

module _ (color : Coloring) (m : Bitmap) (s : Threads) (inv : Inv color m s) where
  pub stops_at : (i : ℕ) (c : Cursor) → s.cursor i ≡ some c → c.stop ≤ s.image.height
  stops_at i c e =
      let h : c.stop ≤ m.height = subst (StopsBy m.height) e (inv.stops i) in
      omega (arith, h, inv.same_height)

  drawn-Inv :
      (i : ℕ) (c : Cursor) (o : Option Cursor) (t : Bitmap)
      → s.cursor i ≡ some c
      → Drawn color c s.image o t
      → Inv color m (record { image = t; cursor = update s.cursor i o })
  drawn-Inv i c o t e d = record {
    same_width = d.paints.same_width ∙ inv.same_width;
    same_height = d.paints.same_height ∙ inv.same_height;
    stops = λ k. elim (ℕ-cases k i) [
      | inl same ↦
          subst (λ n. StopsBy m.height (update s.cursor i o n)) (sym same)
            (rw (update_self s.cursor i o) (subst (λ n. StopsBy n o) inv.same_height d.stops))
      | inr other ↦ rw (update_ne s.cursor i o k other) (inv.stops k)
    ];
    covered = λ x y h k. elim (inv.covered x y h k) [
      | inl a ↦ inl (d.paints.keeps x y (omega (arith, inv.same_width)) a)
      | inr (l, ahead) ↦ elim (ℕ-cases l i) [
        | inl same ↦
            elim (d.onward x y (omega (arith, inv.same_width))
              (subst (λ n. Ahead n x y) (ap s.cursor same ∙ e) ahead)) [
                | inl a ↦ inl a
                | inr on ↦ inr (i, rw (update_self s.cursor i o) on)
              ]
        | inr other ↦ inr (l, rw (update_ne s.cursor i o l other) ahead)
      ]
    ];
  }

pub Step-Inv :
    (color : Coloring) (m : Bitmap) (s t : Threads) → Inv color m s → Step color s t → Inv color m t
Step-Inv color m s t inv (pick i c o u e d) = drawn-Inv color m s inv i c o u e (
    subst (AllDrawn color c s.image) d
      (draw-AllDrawn color c s.image (stops_at color m s inv i c e)))

pub Reach-Inv :
    (color : Coloring) (fl : Floats) (count : ℕ) (m : Bitmap) (s : Threads)
    → 0 < count
    → m.height ≤ 2 ^ 24
    → count ≤ 2 ^ 24
    → Reach color fl count m s
    → Inv color m s
Reach-Inv color fl count m s h small few start = start-Inv fl count m h small few color
Reach-Inv color fl count m s h small few (later {s = u} r st) =
    Step-Inv color m u s (Reach-Inv color fl count m u h small few r) st

-- With at least one thread, and at most 2^24 rows and threads: in whatever order the threads take
-- their steps, when all of them have returned, every pixel of the image has its color.
pub threads-Complete :
    (color : Coloring) (fl : Floats) (count : ℕ) (m : Bitmap) (s : Threads)
    → 0 < count
    → m.height ≤ 2 ^ 24
    → count ≤ 2 ^ 24
    → Reach color fl count m s
    → ((i : ℕ) → s.cursor i ≡ none)
    → Complete color m s.image
threads-Complete color fl count m s h small few r returned =
    let inv : Inv color m s = Reach-Inv color fl count m s h small few r in
    record {
      same_width = inv.same_width;
      same_height = inv.same_height;
      painted = λ x y a b. elim (inv.covered x y a b) [
        | inl p ↦ p
        | inr (i, ahead) ↦ absurd (subst (λ o. Ahead o x y) (returned i) ahead)
      ];
    }
