-- ===== src/Fractal/Main.antt =====
-- main of "03. Parallel Programming/fractal.c": the options, and the image from bitmap_create to bitmap_save.
pub mod Saved
use c_coding_examples_operat.Common.{
  ℕ, zero, suc, ◌==◌, if◌then◌else◌, Bool, ℤ, pos, negsuc, Option, none, some, List, [], ◌∷◌,
}
use c_coding_examples_operat.Common.Run.{Run, undefined, M, ◌>>◌}
use c_coding_examples_operat.Bitmap.{Bitmap, bitmap_reset}
use c_coding_examples_operat.Bitmap.Rgba.{make_rgba}
use c_coding_examples_operat.Bitmap.File.{
  Loaded, refused, overflow, loaded, bitmap_create, bitmap_save,
}
use c_coding_examples_operat.Fractal.Draw.{compute_image}
use c_coding_examples_operat.Fractal.Color.{Doubles, number, View, view_of, compute_point, coloring}

-- "fractal.bmp"
abbrev pub default_file : List ℕ
default_file = b'f' ∷ b'r' ∷ b'a' ∷ b'c' ∷ b't' ∷ b'a' ∷ b'l' ∷ b'.' ∷ b'b' ∷ b'm' ∷ b'p' ∷ []

-- What bitmap_save gives, and the file that it writes
abbrev pub Saving : Type 0
Saving = ℕ × Option (List ℕ)

-- exit(1) for the option h; an image without pixels, which is not followed; or the run behind
-- bitmap_create, for the name of the file.
pub data Program : Type 0 where
  helped no_pixels : Program
  saves : List ℕ → Run Bitmap Saving → Program

module _ (d : Doubles) where
  pub record Settings : Type 0 where
    pub outfile : List ℕ
    pub xcenter : d.Real
    pub ycenter : d.Real
    pub scale : d.Real
    pub image_width : ℤ
    pub image_height : ℤ
    pub max : ℤ

  abbrev pub default_settings : Settings
  default_settings = record {
    outfile = default_file;
    xcenter = number d 0;
    ycenter = number d 0;
    scale = number d 4;
    image_width = pos 640;
    image_height = pos 480;
    max = pos 100;
  }

  module _ (atof : List ℕ → d.Real) (atoi : List ℕ → ℤ) where
    -- The switch: the letter that getopt gives, and optarg; none for exit(1).
    unfoldable pub set_option : ℕ → List ℕ → Settings → Option Settings
    set_option c optarg s =
        if c == b'x'
        then some (record s { xcenter = atof optarg })
        else if c == b'y'
        then some (record s { ycenter = atof optarg })
        else if c == b's'
        then some (record s { scale = atof optarg })
        else if c == b'W'
        then some (record s { image_width = atoi optarg })
        else if c == b'H'
        then some (record s { image_height = atoi optarg })
        else if c == b'm'
        then some (record s { max = atoi optarg })
        else if c == b'o'
        then some (record s { outfile = optarg })
        else if c == b'h'
        then none
        else some s

    abbrev pub and_options : (Settings → Option Settings) → Option Settings → Option Settings
    and_options go none = none
    and_options go (some s) = go s

    -- The loop over the options, as getopt gives them up to -1
    unfoldable pub set_options : List (ℕ × List ℕ) → Settings → Option Settings
    set_options [] s = some s
    set_options ((c, optarg) ∷ more) s = and_options (set_options more) (set_option c optarg s)

  -- Behind bitmap_create, whose result is not tested. `opened` is whether fopen succeeds.
  abbrev pub draw_and_save : Bool → Settings → ℕ → ℕ → M Bitmap Saving
  draw_and_save opened s w h = do
    bitmap_reset (pos (make_rgba 0 0 255 0))
    compute_image (coloring d (compute_point d) (view_of d s.xcenter s.ycenter s.scale s.max) w h)
    bitmap_save opened

  abbrev pub after_create : Bool → Settings → Loaded → Program
  after_create opened s refused = saves s.outfile undefined
  after_create opened s overflow = saves s.outfile undefined
  after_create opened s (loaded (pos (suc w)) (pos (suc h)) cells) = saves s.outfile (
      draw_and_save opened s (suc w) (suc h)
        (record { width = suc w; height = suc h; cells = cells }))
  after_create opened s (loaded w h cells) = no_pixels

  abbrev pub with_settings : Bool → (ℕ → Bool) → (ℕ → ℤ) → Option Settings → Program
  with_settings opened allocates stale none = helped
  with_settings opened allocates stale (some s) =
      after_create opened s (bitmap_create allocates stale s.image_width s.image_height)

  unfoldable pub main :
      (List ℕ → d.Real) → (List ℕ → ℤ) → Bool → (ℕ → Bool) → (ℕ → ℤ) → List (ℕ × List ℕ) → Program
  main atof atoi opened allocates stale options =
      with_settings opened allocates stale (set_options atof atoi options default_settings)
