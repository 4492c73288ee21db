-- ===== src/Fractal/Color.antt =====
-- The colors of the pixels: compute_point and value_to_color of "03. Parallel Programming/fractal.c"
-- (fractalthread.c has the same) and of fractaltask.c, and those of mandel.c.
pub mod Gray
use c_coding_examples_operat.Common.{
  ℕ, zero, suc, ◌+◌, ◌*◌, ◌/◌, ◌^◌, ◌==◌, ltb, if◌then◌else◌, Bool, ℤ, pos, negsuc, pos_part,
  Option, none, some,
}
use c_coding_examples_operat.Bitmap.{◌>>=◌}
use c_coding_examples_operat.Bitmap.Rgba.{make_rgba}
use c_coding_examples_operat.Fractal.Draw.{Coloring}

-- The arithmetic of the processor and of the C library on double and double complex. `to_int` is the
-- conversion of the real part, none where it is out of the range of an int.
pub record Doubles : Type 1 where
  pub Real : Type 0
  pub Complex : Type 0
  pub of_int : ℤ → Real
  pub add : Real → Real → Real
  pub sub : Real → Real → Real
  pub mul : Real → Real → Real
  pub div : Real → Real → Real
  pub lt : Real → Real → Bool
  pub le : Real → Real → Bool
  pub complex : Real → Real → Complex
  pub csub : Complex → Complex → Complex
  pub cmul : Complex → Complex → Complex
  pub cdiv : Complex → Complex → Complex
  pub cpow : Complex → Complex → Complex
  pub cabs : Complex → Real
  pub to_int : Complex → Option ℤ

-- `n / max`, where `n` is a product that has to fit in an int. A division by 0 is undefined, and so
-- is the shift of a negative result in MAKE_RGBA.
unfoldable pub shade : ℕ → ℤ → Option ℕ
shade n (pos zero) = none
shade n (pos (suc m)) = if ltb n (2 ^ 31) then some (n / suc m) else none
shade n (negsuc m) = if n / suc m == 0 then some 0 else none

-- value_to_color of fractal.c: `int gray = iter * 255 / max`
unfoldable pub value_to_color : ℕ → ℤ → Option ℤ
value_to_color iter max = do gray ← shade (iter * 255) max; some (pos (make_rgba gray gray gray 0))

-- iteration_to_color of mandel.c: `int gray = 255*i/max`
unfoldable pub iteration_to_color : ℕ → ℤ → Option ℤ
iteration_to_color i max = do gray ← shade (255 * i) max; some (pos (make_rgba gray gray gray 0))

module _ (d : Doubles) where
  abbrev pub number : ℕ → d.Real
  number n = d.of_int (pos n)

  abbrev pub cnumber : ℕ → d.Complex
  cnumber n = d.complex (number n) (number 0)

  -- `z = z - alpha*((cpow(z,2) - 1 ) / (2*z))` with alpha = 1 + I
  abbrev pub newton : d.Complex → d.Complex
  newton z = d.csub z (
      d.cmul (d.complex (number 1) (number 1))
        (d.cdiv (d.csub (d.cpow z (cnumber 2)) (cnumber 1)) (d.cmul (cnumber 2) z)))

  -- The loop of compute_point: the rounds that `iter < max` leaves, `iter` and `z`.
  unfoldable pub iterate : ℕ → ℕ → d.Complex → ℕ × d.Complex
  iterate zero iter z = (iter, z)
  iterate (suc k) iter z =
      let rest = iterate k (iter + 1) (newton z) in
      if d.lt (d.cabs z) (number 4) then rest else (iter, z)

  -- compute_point of fractal.c
  unfoldable pub compute_point : d.Real → d.Real → ℤ → Option ℤ
  compute_point x y max = value_to_color (iterate (pos_part max) 0 (d.complex x y)).0 max

  -- `z*iter/max` as an int; a shift of a negative int or out of its range is undefined.
  unfoldable pub red_of : d.Complex → ℕ → ℤ → Option ℕ
  red_of z iter max = do
    r ← d.to_int (d.cdiv (d.cmul z (cnumber iter)) (d.complex (d.of_int max) (number 0)))
    in_range r
    where
      in_range : ℤ → Option ℕ
      in_range (pos n) = if ltb n (2 ^ 15) then some n else none
      in_range (negsuc n) = none

  -- value_to_color of fractaltask.c
  unfoldable pub task_value_to_color : d.Complex → ℕ → ℤ → Option ℤ
  task_value_to_color z iter max = do
    red ← red_of z iter max
    green ← shade (175 * iter) max
    blue ← shade (242 * iter) max
    some (pos (make_rgba red green blue 0))

  -- compute_point of fractaltask.c
  unfoldable pub task_compute_point : d.Real → d.Real → ℤ → Option ℤ
  task_compute_point x y max =
      let (iter, z) = iterate (pos_part max) 0 (d.complex x y) in task_value_to_color z iter max

  -- The loop of iterations_at_point in mandel.c: `x` and `y` from `x0` and `y0` on
  unfoldable pub escape : ℕ → ℕ → d.Real → d.Real → d.Real → d.Real → ℕ
  escape zero iter x0 y0 x y = iter
  escape (suc k) iter x0 y0 x y =
      let rest =
        escape k (iter + 1) x0 y0 (d.add (d.sub (d.mul x x) (d.mul y y)) x0)
          (d.add (d.mul (d.mul (number 2) x) y) y0) in
      if d.le (d.add (d.mul x x) (d.mul y y)) (number 4) then rest else iter

  unfoldable pub iterations_at_point : d.Real → d.Real → ℤ → Option ℤ
  iterations_at_point x y max = iteration_to_color (escape (pos_part max) 0 x y x y) max

  -- The part of the plane that the image shows, from its center and scale, and `max`.
  pub record View : Type 0 where
    pub xmin : d.Real
    pub xmax : d.Real
    pub ymin : d.Real
    pub ymax : d.Real
    pub max : ℤ

  abbrev pub view_of : d.Real → d.Real → d.Real → ℤ → View
  view_of xcenter ycenter scale max = record {
    xmin = d.sub xcenter scale;
    xmax = d.add xcenter scale;
    ymin = d.sub ycenter scale;
    ymax = d.add ycenter scale;
    max = max;
  }

  -- `lo + i*(hi-lo)/n`
  abbrev pub coordinate : d.Real → d.Real → ℕ → ℕ → d.Real
  coordinate lo hi i n = d.add lo (d.div (d.mul (number i) (d.sub hi lo)) (number n))

  -- The color of each pixel of an image of the given width and height, by one of the functions above
  abbrev pub coloring : (d.Real → d.Real → ℤ → Option ℤ) → View → ℕ → ℕ → Coloring
  coloring point v width height i j =
      point (coordinate v.xmin v.xmax i width) (coordinate v.ymin v.ymax j height) v.max
