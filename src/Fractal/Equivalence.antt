-- ===== src/Fractal/Equivalence.antt =====
-- The images of fractalthread.c and fractaltask.c of "03. Parallel Programming", and that of one loop
-- over all pixels, as fractal.c has it, with the same colors.
use c_coding_examples_operat.Common.{ℕ, ◌^◌, ◌<◌, ◌≤◌, ◌≡◌, none, ℤ, pos, arith, ◌∙◌, ap, ◌*◌, ◌+◌}
use c_coding_examples_operat.Common.Run.{ok, Returns, Returns-mono}
use c_coding_examples_operat.Bitmap.{Bitmap, bitmap_get}
use c_coding_examples_operat.Bitmap.Pixel.{bitmap_get_inside}
use c_coding_examples_operat.Fractal.Draw.{Coloring, compute_image}
use c_coding_examples_operat.Fractal.Draw.Serial.{Complete, Colored, compute_image-Complete}
use c_coding_examples_operat.Fractal.Bands.{Floats}
use c_coding_examples_operat.Fractal.Threads.{Threads, Reach, threads-Complete}
use c_coding_examples_operat.Fractal.Tasks.{returned, System, main_start, Steps}
use c_coding_examples_operat.Fractal.Tasks.Finished.{tasks-Complete}

-- bitmap_get gives the same value at each pixel of the two images, which have the size of `m`.
pub record SameImage (m t u : Bitmap) : Type 0 where
  pub same_width : (t.width ≡ m.width) × (u.width ≡ m.width)
  pub same_height : (t.height ≡ m.height) × (u.height ≡ m.height)
  pub same_pixels :
      (x y : ℕ)
      → x < m.width
      → y < m.height
      → (value : ℤ) × (bitmap_get (pos x) (pos y) t ≡ ok value t)
        × (bitmap_get (pos x) (pos y) u ≡ ok value u)

Complete-SameImage :
    (color : Coloring) (m t u : Bitmap) → Complete color m t → Complete color m u → SameImage m t u
Complete-SameImage color m t u a b = record {
  same_width = (a.same_width, b.same_width);
  same_height = (a.same_height, b.same_height);
  same_pixels = λ x y h k.
      let e : u.cells (y * u.width + x) ≡ t.cells (y * t.width + x) =
        cc (a.painted x y h k, b.painted x y h k) in
      (
        t.cells (y * t.width + x),
        bitmap_get_inside t x y (omega (arith, a.same_width)) (omega (arith, a.same_height)),
        bitmap_get_inside u x y (omega (arith, b.same_width)) (omega (arith, b.same_height))
            ∙ ap (λ (v : ℤ). ok v u) e,
      );
}

-- With at least one thread, at most 2^24 rows and threads, and colors that the code can compute: when
-- all threads of fractalthread have returned, in whatever order they took their steps, the loop of
-- fractal returns from the same bitmap, and bitmap_get gives the same value for each pixel of the two
-- images.
pub threads-SameImage :
    (color : Coloring) (fl : Floats) (count : ℕ) (m : Bitmap) (s : Threads)
    → 0 < count
    → m.height ≤ 2 ^ 24
    → count ≤ 2 ^ 24
    → Colored color m
    → Reach color fl count m s
    → ((i : ℕ) → s.cursor i ≡ none)
    → Returns (λ _ t. SameImage m t s.image) (compute_image color m)
threads-SameImage color fl count m s h small few colored r finished =
    Returns-mono (compute_image-Complete color m colored) λ _ t c.
      Complete-SameImage color m t s.image c
        (threads-Complete color fl count m s h small few r finished)

-- With at least one task and one thread, at most 2^24 rows and tasks, and a function that gives each
-- pixel a color: when all threads of fractaltask have returned, in whatever order they took their steps,
-- their image is that of one loop over all pixels, in the form that compute_image of fractal.c has, with
-- the same function. The loop returns from the same bitmap, and bitmap_get gives the same value for each
-- pixel of the two images. (The functions of the two programs are different ones: fractaltask.c has
-- red, green and blue where fractal.c has gray.)
pub tasks-SameImage :
    (color : Coloring) (fl : Floats) (count threads : ℕ) (m : Bitmap) (s : System)
    → 0 < count
    → 0 < threads
    → m.height ≤ 2 ^ 24
    → count ≤ 2 ^ 24
    → Colored color m
    → Steps color (main_start fl count threads m) s
    → ((i : ℕ) → s.pc i ≡ returned)
    → Returns (λ _ t. SameImage m t s.image) (compute_image color m)
tasks-SameImage color fl count threads m s h g small few colored r finished =
    Returns-mono (compute_image-Complete color m colored) λ _ t c.
      Complete-SameImage color m t s.image c
        (tasks-Complete color fl count threads m s h g small few r finished)
