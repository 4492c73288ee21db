-- ===== src/FileSystem/Bitmap/Access.antt =====
-- Writes to `bitmap`.
use c_coding_examples_operat.Common.{ℕ, ◌<◌, ◌≡◌, ◌≢◌, ℤ, pos, some, update, arith}
use c_coding_examples_operat.FileSystem.Machine.{State, Bits, ok, out_of_fuel}
use c_coding_examples_operat.FileSystem.Bitmap.{set_bit}

abbrev pub marked : State → Bits → ℕ → ℕ → State
marked s m i v = record s { bitmap = some (record m { bit = update m.bit i v }) }

pub set_bit-ok :
    (i v : ℕ) (s : State) (m : Bits)
    → s.bitmap ≡ some m
    → i < m.size
    → set_bit (pos i) v s ≡ ok tt (marked s m i v)
unfolding set_bit
set_bit-ok i v s m e h = ground arith

pub set_bit-fuel : (z : ℤ) (v : ℕ) (s : State) → set_bit z v s ≢ out_of_fuel
unfolding set_bit
set_bit-fuel z v s e = ground arith
