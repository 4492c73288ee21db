-- ===== src/FileSystem/Copy/Bounds.antt =====
-- do_copyout of "06. File Systems/shell.c" ends, whatever is on the disk.
use c_coding_examples_operat.Common.{
  ℕ, zero, suc, ◌+◌, ◌<◌, ◌≤◌, ltb, Bool, true, false, ℤ, pos, negsuc, List, [], ◌++◌, length,
  arith, Bool-cases, inl, inr,
}
use c_coding_examples_operat.FileSystem.Machine.{State, M}
use c_coding_examples_operat.FileSystem.Copy.{
  buffer_size, copy_round, copy_out, written_out, do_copyout,
}
use c_coding_examples_operat.FileSystem.Copy.ReadOnly.{
  Quiet, breaks, Quiet-bind, pure-Quiet, Limited, fs_read-Quiet,
}

abbrev Few : ℕ × List ℕ → Type 0
Few r = r.0 < 40960

copy_round-Quiet :
    (go : ℕ → List ℕ → M (ℕ × List ℕ)) (offset : ℕ) (out : List ℕ) (r : ℤ × List ℕ) (s : State)
    → offset < 40960
    → Limited buffer_size offset r
    → ((n : ℕ) (text : List ℕ)
        → offset < n
        → offset < 24576
        → n < 40960
        → Quiet s Few (go n text s))
    → Quiet s Few (copy_round go offset out r s)
copy_round-Quiet go offset out (negsuc n, text) s h l next = pure-Quiet s (offset, out) h
copy_round-Quiet go offset out (pos zero, text) s h l next = pure-Quiet s (offset, out) h
copy_round-Quiet go offset out (pos (suc n), text) s h (l, k) next =
    elim (Bool-cases (ltb (length text) buffer_size)) [
      | inl e ↦
          rw e
            (next (offset + suc n) (out ++ written_out (suc n) text) (omega arith) l (omega arith))
      | inr e ↦ rw e breaks
    ]

copy_out-Quiet :
    (inumber : ℤ) (f offset : ℕ) (out : List ℕ) (s : State)
    → 1 ≤ f
    → 24577 ≤ f + offset
    → offset < 40960
    → Quiet s Few (copy_out inumber f offset out s)
unfolding copy_out
copy_out-Quiet inumber zero offset out s a b h = absurd (omega arith)
copy_out-Quiet inumber (suc f) offset out s a b h =
    Quiet-bind s _ (fs_read-Quiet inumber buffer_size offset s) λ r t l.
      copy_round-Quiet (copy_out inumber f) offset out r t h l
        λ n text above low few. copy_out-Quiet inumber f n text t (omega arith) (omega arith) few

-- Whatever is on the disk, do_copyout comes to an end: it returns, or abort() ends it at a read outside
-- the disk, or it reaches undefined behaviour: a read outside an array, or a write behind the buffer of
-- 16384 bytes. When it returns, the content of the disk, its size and the bitmap are as they were, and
-- it has copied less than 40960 bytes: a longer file is cut off.
pub do_copyout-Quiet :
    (opened : Bool) (inumber : ℤ) (s : State)
    → Quiet s (λ r. r.1 < 40960) (do_copyout opened inumber s)
unfolding do_copyout
do_copyout-Quiet false inumber s = pure-Quiet s (pos 0, 0, []) (omega arith)
do_copyout-Quiet true inumber s =
    Quiet-bind s _ (copy_out-Quiet inumber 24577 0 [] s (omega arith) (omega arith) (omega arith))
      λ r t h. pure-Quiet t (pos 1, r.0, r.1) h
