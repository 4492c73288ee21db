-- ===== src/FileSystem/Copy/RoundTrip.antt =====
-- do_copyin and do_copyout of "06. File Systems/shell.c", one after the other.
use c_coding_examples_operat.Common.{
  drop, ℕ, suc, ◌+◌, ◌-◌, ◌/◌, ◌≤◌, ◌<◌, ◌≡◌, ◌≢◌, refl, sym, ◌==◌, ltb, ltb_ℤ, ℤ, pos, length,
  replicate, All, true, false, some, List, [], ◌∷◌, ◌++◌, arith, ap, ◌∙◌, lt→ltb,
}
use mathlib.Core.List.{append-nil}
use c_coding_examples_operat.FileSystem.Block.{Block}
use c_coding_examples_operat.FileSystem.Inode.{load_inode}
use c_coding_examples_operat.FileSystem.Machine.{
  State, Bits, Run, M, ok, and_then, Returns, returns, Returns-bind,
}
use c_coding_examples_operat.FileSystem.Disk.{disk_read-ok, counted_read}
use c_coding_examples_operat.FileSystem.Text.{Memory, strncpy, text_of, text_of-strncpy}
use c_coding_examples_operat.FileSystem.Table.Delete.{Leads}
use c_coding_examples_operat.FileSystem.Read.{Reading, read_file, read_slot, clip, fs_read}
use c_coding_examples_operat.FileSystem.Read.RoundTrip.{
  read_direct-done, read_indirect-done, fs_read-one,
}
use c_coding_examples_operat.FileSystem.Write.{fs_write}
use c_coding_examples_operat.FileSystem.Write.NewFile.{IsNew, Wrote, file, fs_write-one, p_bounds}
use c_coding_examples_operat.FileSystem.Copy.Filled.{
  take-all, drop-all, filled-IsText, bytes-filled,
}
use c_coding_examples_operat.FileSystem.Copy.{
  buffer_size, drop, filled, count_written, copy_next, copy_in, do_copyin, written_out, copy_round,
  copy_out, do_copyout,
}

-- At the end of a file of one block there is nothing to read.
fs_read-end :
    (t : State) (num : ℤ) (i j p n : ℕ) (ps : List ℤ)
    → Leads t num i j
    → i ≢ 0
    → load_inode (t.blocks i) j ≡ file n (pos p ∷ ps)
    → 0 < n
    → n ≤ 4096
    → fs_read num buffer_size n t ≡ ok (pos 0, []) (counted_read (counted_read t))
unfolding fs_read read_slot read_file
fs_read-end t num i j p n ps l ne inode h below = rw (
  disk_read-ok 0 t (omega (arith, l.room)),
  l.block,
  l.listed,
  not_zero,
  disk_read-ok i (counted_read t) l.room,
  l.slot,
  inode,
  has_size,
  not_past,
  within,
  clipped,
  read_direct-done 0 5 (n / 4096) (pos p ∷ ps) nothing (counted_read (counted_read t))
      (omega arith),
  read_indirect-done 0 (file n (pos p ∷ ps)) nothing (counted_read (counted_read t)) (omega arith),
)
  where
    nothing : Reading
    nothing = record { text = []; total = 0; section = 4096 }

    not_zero : (i == 0) ≡ false
    not_zero = ground arith

    has_size : (n == 0) ≡ false
    has_size = ground arith

    not_past : ltb_ℤ (pos n) (pos n) ≡ false
    not_past = ground arith

    within : ltb 5 (n / 4096) ≡ false
    within = ground arith

    clipped : clip (pos n) buffer_size n ≡ 0
    clipped = ground arith

-- One round of do_copyin for a file that the buffer takes.
module _ (junk : ℕ → Block) (num : ℤ) (stale : Memory) (s : State) where
  round : ℕ → List ℕ → List ℕ → Run ℕ
  round f chunk rest =
      and_then (fs_write (junk 0) num (filled chunk stale) (length chunk) 0 s) (λ actual.
        copy_next (copy_in junk num f rest (filled chunk stale))
          (count_written actual (length chunk) 0))

  copy_in-round :
      (f : ℕ) (content : List ℕ)
      → 0 < length content
      → length content ≤ buffer_size
      → copy_in junk num (suc f) content stale 0 s ≡ round f content []
  unfolding copy_in round
  copy_in-round f [] h l = absurd (omega arith)
  copy_in-round f (x ∷ xs) h l =
      ap (λ (c : List ℕ). round f c (drop buffer_size (x ∷ xs))) (take-all buffer_size (x ∷ xs) l)
      ∙ ap (λ (r : List ℕ). round f (x ∷ xs) r) (drop-all buffer_size (x ∷ xs) l)

  copy_in-last :
      (f n : ℕ) (memory : Memory) (t : State)
      → copy_next (copy_in junk num (suc f) [] memory) (count_written (pos n) n 0) t ≡ ok n t
  unfolding copy_in
  copy_in-last f n memory t =
      let e : (n == n) ≡ true = ground arith in rw e (ap (λ (k : ℕ). ok k t) (omega arith))

module _ {s : State} {m : Bits} {nib : ℕ} {num : ℤ} {i j p : ℕ} (v : IsNew s m nib num i j p) where
  -- The state after do_copyin of a file of `n` bytes
  abbrev Copied : (ℕ → Block) → Memory → ℕ → State → Type 0
  Copied junk memory n =
      Wrote s i j p (file n (pos p ∷ pos 0 ∷ pos 0 ∷ pos 0 ∷ pos 0 ∷ []))
        (strncpy (junk 0) memory n)

  copy_in-Copied :
      (junk : ℕ → Block) (stale : Memory) (f : ℕ) (content : List ℕ)
      → 0 < length content
      → length content ≤ 4096
      → Returns
          (λ r t. (r ≡ length content) × Copied junk (filled content stale) (length content) t)
          (copy_in junk num (suc (suc f)) content stale 0 s)
  unfolding round
  copy_in-Copied junk stale f content h l =
      rw (copy_in-round junk num stale s (suc f) content h (omega arith)) (
        Returns-bind (fs_write-one v (junk 0) (filled content stale) (length content) h l)
          λ r t (e, w).
            rw (e, copy_in-last junk num stale s f (length content) (filled content stale) t)
              (returns (refl, w)))

  Copied-Leads :
      (junk : ℕ → Block) (memory : Memory) (n : ℕ) (t : State)
      → Copied junk memory n t
      → Leads t num i j
  Copied-Leads junk memory n t w = record {
    block = v.leads.block;
    slot = v.leads.slot;
    listed =
        rw (w.other_blocks 0 (λ e. v.not_super (sym e)) (omega (arith, p_bounds v))) v.leads.listed;
    room = rw w.same_size v.leads.room;
  }

counted-Leads : (t : State) (num : ℤ) (i j : ℕ) → Leads t num i j → Leads (counted_read t) num i j
counted-Leads t num i j l = record {
  block = l.block;
  slot = l.slot;
  listed = l.listed;
  room = l.room;
}

-- do_copyout of a file of one block that holds text
module _ (t : State) (num : ℤ) (i j p : ℕ) (ps : List ℤ) (leads : Leads t num i j) (ne : i ≢ 0)
    (room : p < t.nblocks) where
  copy_out-last :
      (f n : ℕ) (out : List ℕ)
      → load_inode (t.blocks i) j ≡ file n (pos p ∷ ps)
      → 0 < n
      → n ≤ 4096
      → copy_out num (suc f) n out t ≡ ok (n, out) (counted_read (counted_read t))
  unfolding copy_out
  copy_out-last f n out e h l = rw (fs_read-end t num i j p n ps leads ne e h l)

  copy_round-last :
      (go : ℕ → List ℕ → M (ℕ × List ℕ)) (content : List ℕ)
      → 0 < length content
      → length content ≤ 4096
      → copy_round go 0 [] (pos (length content), content) ≡ go (length content) content
  copy_round-last go [] h l = absurd (omega arith)
  copy_round-last go (x ∷ xs) h l =
      let e : ltb (length (x ∷ xs)) buffer_size ≡ true =
        lt→ltb (length (x ∷ xs)) buffer_size (omega arith) in
      let rest : length (x ∷ xs) - length (x ∷ xs) ≡ 0 = omega arith in
      rw e (
        ap (λ (k : ℕ). go k (written_out (length (x ∷ xs)) (x ∷ xs))) (omega arith)
        ∙ ap (λ (k : ℕ). go (length (x ∷ xs)) ((x ∷ xs) ++ replicate k 0)) rest
        ∙ ap (go (length (x ∷ xs))) (append-nil (x ∷ xs)))

-- What fs_read gives on the first round, where the file of `num` holds `content`.
module _ (t : State) (num : ℤ) (i j p : ℕ) (ps : List ℤ) (leads : Leads t num i j) (ne : i ≢ 0)
    (room : p < t.nblocks) (content : List ℕ) (h : 0 < length content) (l : length content ≤ 4096)
    (inode : load_inode (t.blocks i) j ≡ file (length content) (pos p ∷ ps))
    (text : text_of (t.blocks p) 0 (length content) ≡ content) where
  copy_out-all :
      (f : ℕ)
      → copy_out num (suc (suc f)) 0 [] t
        ≡ ok
            (length content, content)
            (counted_read (counted_read (counted_read (counted_read (counted_read t)))))
  unfolding copy_out
  copy_out-all f = rw (
    fs_read-one t num i j p (length content) buffer_size ps leads ne inode room h l (omega arith),
    text,
    ap (λ (x : M (ℕ × List ℕ)). x (counted_read (counted_read (counted_read t))))
        (copy_round-last t num i j p ps leads ne room (copy_out num (suc f)) content h l),
    copy_out-last (counted_read (counted_read (counted_read t))) num i j p ps
        (counted-Leads _ num i j (counted-Leads _ num i j (counted-Leads t num i j leads))) ne room
        f (length content) content inode h l,
  )

  do_copyout-all :
      do_copyout true num t
      ≡ ok
          (pos 1, length content, content)
          (counted_read (counted_read (counted_read (counted_read (counted_read t)))))
  unfolding do_copyout
  do_copyout-all = rw (copy_out-all 24575)

-- What do_copyin puts into a new inode, from a file of the host of 1 to 4096 bytes with no NUL among
-- them, do_copyout writes to a file again: both return 1 and count all the bytes.
pub do_copyout-do_copyin :
    {s : State} {m : Bits} {nib : ℕ} {num : ℤ} {i j p : ℕ} (junk : ℕ → Block) (stale : Memory)
    (content : List ℕ)
    → IsNew s m nib num i j p
    → 0 < length content
    → length content ≤ 4096
    → All (λ (x : ℕ). x ≢ 0) content
    → Returns
        (λ r t.
          (r ≡ (pos 1, length content))
          × Returns (λ out u. out ≡ (pos 1, length content, content)) (do_copyout true num t))
        (do_copyin junk stale (some content) num s)
unfolding do_copyin
do_copyout-do_copyin {s} {num} {i} {j} {p} junk stale [] v h l plain = absurd (omega arith)
do_copyout-do_copyin {s} {num} {i} {j} {p} junk stale (x ∷ xs) v h l plain =
    let content : List ℕ = x ∷ xs in
    let rounds : length content + 1 ≡ suc (suc (length xs)) = omega arith in
    rw rounds (
      Returns-bind (copy_in-Copied v junk stale (length xs) content h l) λ n t (e, w). rw e (
        returns (
          refl,
          rw
              (do_copyout-all t num i j p _
                (Copied-Leads v junk (filled content stale) (length content) t w) v.not_super
                (rw w.same_size (p_bounds v).1) content h l w.inode_set
                (ap (λ (b : Block). text_of b 0 (length content)) w.content_set
                  ∙ text_of-strncpy (junk 0) (filled content stale) (length content) 0
                      (length content) (filled-IsText content stale plain) (omega arith)
                  ∙ bytes-filled content stale))
              (returns refl),
        )))
