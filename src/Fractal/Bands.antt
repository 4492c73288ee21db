-- ===== src/Fractal/Bands.antt =====
-- How main of "03. Parallel Programming/fractalthread.c" and of fractaltask.c splits the rows of an
-- image into bands, in single-precision floats.
use c_coding_examples_operat.Common.{
  ℕ, ◌+◌, ◌-◌, ◌*◌, ◌/◌, ◌%◌, ◌^◌, ◌<◌, ◌≤◌, ◌≡◌, ◌==◌, if◌then◌else◌, arith, inl, inr, lt-cases,
}
use native.Mathlib.Nat.{div-add-mod}

-- `(float)n` for a number that is not negative. Up to 2^24 each number is a float; the theorems use
-- no more than that of the rounding.
pub record Floats : Type 0 where
  pub round : ℕ → ℕ
  pub exact : (n : ℕ) → n ≤ 2 ^ 24 → round n ≡ n

-- `(float)i * (height/count)`
unfoldable pub y_start : Floats → ℕ → ℕ → ℕ → ℕ
y_start fl height count i = fl.round (fl.round i * fl.round (height / count))

-- `(float)(i+1.0) * (height/count)`, and the rest of the rows for the last band
unfoldable pub y_end : Floats → ℕ → ℕ → ℕ → ℕ
y_end fl height count i =
    let end = fl.round (fl.round (i + 1) * fl.round (height / count)) in
    if i + 1 == count then end + height % count else end

module _ (fl : Floats) (height count : ℕ) (some_bands : 0 < count) (small : height ≤ 2 ^ 24)
    (few : count ≤ 2 ^ 24) where
  rows_lt : count * (height / count) ≤ height
  rows_lt = grind arith

  band_le : (i : ℕ) → i ≤ count → i * (height / count) ≤ height
  band_le i h = grind (arith, rows_lt)

  part_le : height / count ≤ 2 ^ 24
  part_le = omega (arith, small, quotient_le)
    where
      quotient_le : height / count ≤ height
      quotient_le = grind (arith, rows_lt)

  product_exact :
      (i : ℕ) → i ≤ count → fl.round (fl.round i * fl.round (height / count)) ≡ i * (height / count)
  product_exact i h = rw (
    fl.exact i (omega (arith, h, few)),
    fl.exact (height / count) part_le,
    fl.exact (i * (height / count)) (omega (arith, small, band_le i h)),
  )

  pub y_start_lem : (i : ℕ) → i < count → y_start fl height count i ≡ i * (height / count)
  unfolding y_start
  y_start_lem i h = product_exact i (omega arith)

  pub y_end_lem :
      (i : ℕ)
      → i < count
      → y_end fl height count i ≡ (if i + 1 == count then height else (i + 1) * (height / count))
  unfolding y_end
  y_end_lem i h =
      rw (product_exact (i + 1) (omega arith)) (ground (arith, div-add-mod height count))

  pub y_end_le : (i : ℕ) → i < count → y_end fl height count i ≤ height
  y_end_le i h = rw (y_end_lem i h) (ground (arith, band_le (i + 1)))

  inner_band :
      (y : ℕ)
      → y < (count - 1) * (height / count)
      → (i : ℕ) × (i < count) × (y_start fl height count i ≤ y) × (y < y_end fl height count i)
  inner_band y below =
      let q : ℕ = height / count in
      let positive : 0 < q = grind arith in
      let low : y / q * q ≤ y = grind arith in
      let high : y < (y / q + 1) * q = grind arith in
      let i_lt : y / q < count - 1 = grind arith in
      (
        y / q,
        omega (arith, i_lt),
        rw (y_start_lem (y / q) (omega (arith, i_lt))) low,
        rw (y_end_lem (y / q) (omega (arith, i_lt))) (ground (arith, i_lt, high)),
      )

  -- With at least one band, and no more than 2^24 rows and bands, each row of the image lies in a band.
  pub bands_cover :
      (y : ℕ)
      → y < height
      → (i : ℕ) × (i < count) × (y_start fl height count i ≤ y) × (y < y_end fl height count i)
  bands_cover y h = elim (lt-cases y ((count - 1) * (height / count))) [
    | inl below ↦ inner_band y below
    | inr above ↦ (
      count - 1,
      omega arith,
      rw (y_start_lem (count - 1) (omega arith)) above,
      rw (y_end_lem (count - 1) (omega arith)) (ground arith),
    )
  ]
