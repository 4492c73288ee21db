-- ===== src/FileSystem/Read/RoundTrip.antt =====
-- fs_read of a file of one block, and of what fs_write has written.
use c_coding_examples_operat.Common.{
  ℕ, zero, suc, ◌+◌, ◌-◌, ◌≤◌, ◌<◌, ◌≡◌, ◌≢◌, refl, sym, ◌==◌, ltb, if◌then◌else◌, ℤ, pos, arith,
  false, lt→ltb, ◌∙◌, ap, List, [], ◌∷◌, ltb_ℤ,
}
use c_coding_examples_operat.FileSystem.Block.{Block}
use c_coding_examples_operat.FileSystem.Inode.{Inode, load_inode}
use c_coding_examples_operat.FileSystem.Machine.{State, Bits, ok, Returns, returns, Returns-mono}
use c_coding_examples_operat.FileSystem.Disk.{disk_read-ok, counted_read}
use c_coding_examples_operat.FileSystem.Text.{Memory, text_of, bytes, IsText, text_of-strncpy}
use c_coding_examples_operat.FileSystem.Table.Delete.{Leads}
use c_coding_examples_operat.FileSystem.Read.{
  Reading, take_section, read_direct, read_indirect, read_file, read_slot, clip, fs_read,
}
use c_coding_examples_operat.FileSystem.Write.{fs_write}
use c_coding_examples_operat.FileSystem.Write.NewFile.{IsNew, file, fs_write-one, p_bounds}

abbrev begin : Reading
begin = record { text = []; total = 0; section = 4096 }

pub read_direct-done :
    (n f k : ℕ) (ds : List ℤ) (r : Reading) (t : State)
    → n ≤ r.total
    → read_direct n ds f k r t ≡ ok r t
unfolding read_direct
read_direct-done n zero k ds r t h = refl
read_direct-done n (suc f) k ds r t h = ground arith

read_direct-step :
    (n f p : ℕ) (ps : List ℤ) (t : State)
    → 0 < n
    → p < t.nblocks
    → read_direct n (pos p ∷ ps) (suc f) 0 begin t
      ≡ read_direct n (pos p ∷ ps) f (0 + 1) (take_section n (t.blocks p) begin) (counted_read t)
unfolding read_direct
read_direct-step n f p ps t h k = rw (lt→ltb 0 n h, disk_read-ok p t k)

read_direct-one :
    (n p : ℕ) (ps : List ℤ) (t : State)
    → 0 < n
    → n ≤ 4096
    → p < t.nblocks
    → read_direct n (pos p ∷ ps) 5 0 begin t
      ≡ ok (record { text = text_of (t.blocks p) 0 n; total = n; section = n }) (counted_read t)
read_direct-one n p ps t h l k =
    read_direct-step n 4 p ps t h k
    ∙ read_direct-done n 4 (0 + 1) (pos p ∷ ps) (take_section n (t.blocks p) begin) (counted_read t)
        (omega (arith, all))
    ∙ ap (λ (r : Reading). ok r (counted_read t))
        (λ d. record {
          text = text_of (t.blocks p) 0 (all d);
          total = (sum ∙ all) d;
          section = all d;
        })
  where
    part : ℕ
    part = if ltb n (4096 + 0) then n - 0 else 4096

    all : part ≡ n
    all = ground arith

    sum : 0 + part ≡ part
    sum = omega arith

pub read_indirect-done :
    (n : ℕ) (inode : Inode) (r : Reading) (t : State)
    → n ≤ r.total
    → read_indirect n inode r t ≡ ok r t
unfolding read_indirect
read_indirect-done n inode r t h = ground arith

-- Reading a file of 1 to 4096 bytes in one block, with a length that is not below its size, returns
-- the size and the text of the block.
pub fs_read-one :
    (t : State) (num : ℤ) (i j p n len : ℕ) (ps : List ℤ)
    → Leads t num i j
    → i ≢ 0
    → load_inode (t.blocks i) j ≡ file n (pos p ∷ ps)
    → p < t.nblocks
    → 0 < n
    → n ≤ 4096
    → n ≤ len
    → fs_read num len 0 t
      ≡ ok (pos n, text_of (t.blocks p) 0 n) (counted_read (counted_read (counted_read t)))
unfolding fs_read read_slot read_file
fs_read-one t num i j p n len ps l ne inode k h below enough = rw (
  disk_read-ok 0 t (omega (arith, l.room)),
  l.block,
  l.listed,
  not_zero,
  disk_read-ok i (counted_read t) l.room,
  l.slot,
  inode,
  has_size,
  not_past,
  clipped,
  read_direct-one n p ps (counted_read (counted_read t)) h below k,
  read_indirect-done n (file n (pos p ∷ ps)) final (counted_read (counted_read (counted_read t)))
      (omega arith),
)
  where
    final : Reading
    final = record { text = text_of (t.blocks p) 0 n; total = n; section = n }

    not_zero : (i == 0) ≡ false
    not_zero = ground arith

    has_size : (n == 0) ≡ false
    has_size = ground arith

    not_past : ltb_ℤ (pos n) (pos 0) ≡ false
    not_past = ground arith

    clipped : clip (pos n) len 0 ≡ n
    clipped = ground arith

-- What fs_write puts into a new inode, fs_read gives back: text of 1 to 4096 bytes with no NUL
-- among them, read with any length that is not below the number of bytes.
pub fs_read-fs_write :
    {s : State} {m : Bits} {nib : ℕ} {num : ℤ} {i j p : ℕ} (junk : Block) (src : Memory) (n len : ℕ)
    → IsNew s m nib num i j p
    → 0 < n
    → n ≤ 4096
    → n ≤ len
    → IsText src n
    → Returns
        (λ r t. (r ≡ pos n) × Returns (λ out u. out ≡ (pos n, bytes src 0 n)) (fs_read num len 0 t))
        (fs_write junk num src n 0 s)
fs_read-fs_write {s} {num} {i} {j} {p} junk src n len v h l enough plain =
    Returns-mono (fs_write-one v junk src n h l) λ r t (result, w).
      let leads : Leads t num i j = record {
        block = v.leads.block;
        slot = v.leads.slot;
        listed =
            rw (w.other_blocks 0 (λ e. v.not_super (sym e)) (omega (arith, p_bounds v)))
              v.leads.listed;
        room = rw w.same_size v.leads.room;
      } in
      (
        result,
        rw
            (fs_read-one t num i j p n len _ leads v.not_super w.inode_set
              (rw w.same_size (p_bounds v).1) h l enough)
            (returns (
              ap (λ (x : List ℕ). (pos n, x))
                (rw w.content_set (text_of-strncpy junk src n 0 n plain (omega arith))))),
      )
