-- ===== src/Fractal/Main/Saved.antt =====
-- The file that "03. Parallel Programming/fractal.c" writes.
use c_coding_examples_operat.Common.{
  ℕ, zero, suc, ◌+◌, ◌*◌, ◌%◌, ◌^◌, ◌<◌, ◌≤◌, ◌≡◌, refl, Bool, true, ℤ, pos, some, List, [], arith,
  ap, ◌∙◌, sym, subst,
}
use c_coding_examples_operat.Common.Run.{Run, Returns, Returns-bind, Returns-mono}
use c_coding_examples_operat.Bitmap.{Bitmap}
use c_coding_examples_operat.Bitmap.Rgba.{make_rgba}
use c_coding_examples_operat.Bitmap.Pixel.{cell_lt}
use c_coding_examples_operat.Bitmap.Reset.{bitmap_reset-same_size}
use c_coding_examples_operat.Bitmap.File.{loaded, bitmap_create, bitmap_save, bitmap}
use c_coding_examples_operat.Bitmap.File.RoundTrip.{
  opaque, bitmap_create-loaded, bitmap-bitmap_save,
}
use c_coding_examples_operat.Fractal.Draw.{compute_image}
use c_coding_examples_operat.Fractal.Draw.Serial.{Complete, compute_image-Complete}
use c_coding_examples_operat.Fractal.Color.{
  Doubles, View, view_of, compute_point, coordinate, coloring,
}
use c_coding_examples_operat.Fractal.Color.Gray.{IsGray, max_limit, point-IsGray}
use c_coding_examples_operat.Fractal.Main.{
  Saving, saves, Settings, default_settings, set_options, draw_and_save, main,
}

module _ (d : Doubles) where
  -- The color of pixel (i, j) of an image of w by h pixels
  abbrev pub HasColor : View d → ℕ → ℕ → ℕ → ℕ → ℤ → Type 0
  HasColor v w h i j color =
      (gray : ℕ) × (gray ≤ 255)
      × (coloring d (compute_point d) v w h i j ≡ some (pos (make_rgba gray gray gray 0)))
      × (color ≡ opaque (pos (make_rgba gray gray gray 0)))

  -- The file holds the image: read again, each pixel has the color of its point.
  pub record Saved (v : View d) (w h : ℕ) (stale : ℕ → ℕ) (allocates : ℕ → Bool)
      (stale_data : ℕ → ℤ) (out : Saving) : Type 0 where
    pub file : List ℕ
    pub cells : ℕ → ℤ
    pub succeeds : out.0 ≡ 1
    pub written : out.1 ≡ some file
    pub same_size : bitmap (some file) stale allocates stale_data ≡ loaded (pos w) (pos h) cells
    pub same_colors : (i j : ℕ) → i < w → j < h → HasColor v w h i j (cells (j * w + i))

  module _ (v : View d) (w h max : ℕ) (e : v.max ≡ pos max) (some_rounds : 0 < max)
      (bound : max ≤ max_limit) where
    point-IsGray_at : (i j : ℕ) → IsGray (coloring d (compute_point d) v w h i j)
    point-IsGray_at i j =
        let px : d.Real = coordinate d v.xmin v.xmax i w in
        let py : d.Real = coordinate d v.ymin v.ymax j h in
        subst (λ (k : ℤ). IsGray (compute_point d px py k)) (sym e)
          (point-IsGray d px py max some_rounds bound).0

    compute_image-drawn :
        (m : Bitmap)
        → Returns
            (λ _ t. Complete (coloring d (compute_point d) v w h) m t)
            (compute_image (coloring d (compute_point d) v w h) m)
    compute_image-drawn m =
        compute_image-Complete (coloring d (compute_point d) v w h) m
          λ x y _ _ n. let (gray, small, g) = point-IsGray_at x y in cc

    module _ (m t : Bitmap) (same_width : m.width ≡ w) (same_height : m.height ≡ h)
        (drawn : Complete (coloring d (compute_point d) v w h) m t) (stale : ℕ → ℕ)
        (allocates : ℕ → Bool) (stale_data : ℕ → ℤ) where
      wide : t.width ≡ w
      wide = drawn.same_width ∙ same_width

      high : t.height ≡ h
      high = drawn.same_height ∙ same_height

      area : t.width * t.height ≡ w * h
      area = ap (λ (k : ℕ). k * t.height) wide ∙ ap (λ (k : ℕ). w * k) high

      restored-color :
          (cells : ℕ → ℤ)
          → ((k : ℕ) → k < t.width * t.height → cells k ≡ opaque (t.cells k))
          → (i j : ℕ) → i < w
          → j < h
          → HasColor v w h i j (cells (j * w + i))
      restored-color cells same i j a b =
          let (gray, small, g) = point-IsGray_at i j in
          let cell : coloring d (compute_point d) v w h i j ≡ some (t.cells (j * w + i)) =
            drawn.painted i j (omega (arith, same_width)) (omega (arith, same_height))
            ∙ ap (λ (k : ℕ). some (t.cells (j * k + i))) wide in
          let inside : j * w + i < w * h = cell_lt i j w h a b in
          let color : t.cells (j * w + i) ≡ pos (make_rgba gray gray gray 0) = cc in
          (
            gray,
            small,
            g,
            same (j * w + i) (subst (λ (k : ℕ). j * w + i < k) (sym area) inside) ∙ ap opaque color,
          )

      bitmap_save-Saved :
          0 < w
          → 0 < h
          → w % 4 ≡ 0
          → w * h * 3 < 2 ^ 31
          → allocates 16 ≡ true
          → allocates (w * h * 4) ≡ true
          → Returns (λ out _. Saved v w h stale allocates stale_data out) (bitmap_save true t)
      bitmap_save-Saved a b c small node enough =
          Returns-mono
            (bitmap-bitmap_save t stale allocates stale_data (omega (arith, wide))
              (omega (arith, high)) (ap (λ (k : ℕ). k % 4) wide ∙ c)
              (subst (λ (k : ℕ). k * 3 < 2 ^ 31) (sym area) small) node
              (ap (λ (k : ℕ). allocates (k * 4)) area ∙ enough))
            λ out u (_, one, (file, e, r)). record {
              file = file;
              cells = r.cells;
              succeeds = one;
              written = e;
              same_size =
                  r.same_size
                  ∙ ap (λ (k : ℕ). loaded (pos k) (pos t.height) r.cells) wide
                  ∙ ap (λ (k : ℕ). loaded (pos w) (pos k) r.cells) high;
              same_colors = restored-color r.cells r.same_colors;
            }

  draw_and_save-Saved :
      (s : Settings d) (w h max : ℕ) (m : Bitmap) (stale : ℕ → ℕ) (allocates : ℕ → Bool)
      (stale_data : ℕ → ℤ)
      → s.max ≡ pos max
      → 0 < max
      → max ≤ max_limit
      → m.width ≡ w
      → m.height ≡ h
      → 0 < w
      → 0 < h
      → w % 4 ≡ 0
      → w * h * 3 < 2 ^ 31
      → allocates 16 ≡ true
      → allocates (w * h * 4) ≡ true
      → Returns
          (λ out _.
            Saved (view_of d s.xcenter s.ycenter s.scale s.max) w h stale allocates stale_data out)
          (draw_and_save d true s w h m)
  draw_and_save-Saved s w h max m stale allocates stale_data e a b x y wpos hpos c small node
        enough =
      let v : View d = view_of d s.xcenter s.ycenter s.scale s.max in
      Returns-bind (bitmap_reset-same_size m (pos (make_rgba 0 0 255 0))) λ _ t (f, g).
        Returns-bind (compute_image-drawn v w h max e a b t) λ _ u drawn.
          bitmap_save-Saved v w h max e a b t u (f ∙ x) (g ∙ y) drawn stale allocates stale_data
            wpos hpos c small node enough

-- With options that give a positive width, which is a multiple of four, a positive height, less than
-- 2^31 bytes of colors and a maximum from 1 to 8421504, where malloc gives the memory and the
-- output file can be opened: main of fractal draws the image and writes it to the file that the options
-- name, with the result 1 of bitmap_save. bitmap, when it reads this file, gives an image of the same
-- width and height, in which each pixel has the shade of gray that compute_point gives for its point,
-- opaque. The arithmetic on doubles may be any.
pub main-Saved :
    (d : Doubles) (atof : List ℕ → d.Real) (atoi : List ℕ → ℤ) (options : List (ℕ × List ℕ))
    (s : Settings d) (w h max : ℕ) (stale : ℕ → ℕ) (allocates : ℕ → Bool) (stale_data : ℕ → ℤ)
    → set_options d atof atoi options (default_settings d) ≡ some s
    → s.image_width ≡ pos w
    → s.image_height ≡ pos h
    → s.max ≡ pos max
    → 0 < w
    → 0 < h
    → w % 4 ≡ 0
    → w * h * 3 < 2 ^ 31
    → 0 < max
    → max ≤ max_limit
    → allocates 16 ≡ true
    → allocates (w * h * 4) ≡ true
    → (r : Run Bitmap Saving) × (main d atof atoi true allocates stale_data options
        ≡ saves s.outfile r)
      × Returns
          (λ out _.
            Saved d
              (view_of d s.xcenter s.ycenter s.scale s.max)
              w
              h
              stale
              allocates
              stale_data
              out)
          r
unfolding main
main-Saved d atof atoi options s zero h max stale allocates stale_data o x y e wide high c small a b
      node enough =
    absurd (omega arith)
main-Saved d atof atoi options s (suc w) zero max stale allocates stale_data o x y e wide high c
      small a b node enough =
    absurd (omega arith)
main-Saved d atof atoi options s (suc w) (suc h) max stale allocates stale_data o x y e wide high c
      small a b node enough =
    let m : Bitmap = record { width = suc w; height = suc h; cells = stale_data } in
    let created : bitmap_create allocates stale_data (pos (suc w)) (pos (suc h))
        ≡ loaded (pos (suc w)) (pos (suc h)) stale_data =
      bitmap_create-loaded [] stale allocates stale_data (suc w) (suc h) node (omega arith)
        enough in
    (
      draw_and_save d true s (suc w) (suc h) m,
      rw (o, x, y, created) refl,
      draw_and_save-Saved d s (suc w) (suc h) max m stale allocates stale_data e a b refl refl wide
          high c small node enough,
    )
