-- ===== src/FileSystem/Table/Create.antt =====
-- fs_create: success, exhaustion and termination.
use c_coding_examples_operat.Common.{
  ℕ, zero, suc, ◌+◌, ◌≤◌, ◌<◌, ◌≡◌, refl, ◌≢◌, inl, inr, ℤ, pos, some, none, arith, ap, true, false,
  Bool-cases, Option, leb_ℤ, le→leb, lt-cases, update,
}
use c_coding_examples_operat.FileSystem.Block.{Block}
use c_coding_examples_operat.FileSystem.Inode.{
  load_inode, store_inode, super_ninodeblocks, IsInode, load-store_inode_self, load-store_inode_ne,
}
use c_coding_examples_operat.FileSystem.Machine.{
  State, Bits, ok, out_of_fuel, M, and_then-fuel, is_mounted, Returns, returns,
}
use c_coding_examples_operat.FileSystem.Disk.{
  disk_read, disk_write, disk_read-ok, disk_read_outside, disk_write-ok, counted_read, written,
  sanity_check,
}
use c_coding_examples_operat.FileSystem.Bitmap.{set_bit}
use c_coding_examples_operat.FileSystem.Bitmap.Access.{set_bit-ok, set_bit-fuel, marked}
use c_coding_examples_operat.FileSystem.Table.{
  cleared, free_slot, create_in, create_loop, fs_create, get_inode_number,
}
use c_coding_examples_operat.FileSystem.Table.FreeSlot.{
  IsFree, IsUsed, Found, free_slot-Found, free_slot_total, free_slot_full,
}

-- A mounted disk with `nib` inode blocks behind its superblock.
pub record IsReady (s : State) (m : Bits) (nib : ℕ) : Type 0 where
  pub map : s.bitmap ≡ some m
  pub map_size : m.size ≡ s.nblocks
  pub super : super_ninodeblocks (s.blocks 0) ≡ pos nib
  pub some_inodes : 1 ≤ nib
  pub room : nib < s.nblocks

pub cleared-IsInode : (v : ℕ) → v < 2 → IsInode (cleared (pos v))
cleared-IsInode v h = omega arith

round :
    (f i : ℕ) (block : Block) (s : State)
    → leb_ℤ (pos i) (super_ninodeblocks block) ≡ true
    → i < s.nblocks
    → create_loop (suc f) i block s
      ≡ create_in i
          (s.blocks i)
          (free_slot i (s.blocks i) 129 0)
          (create_loop f (i + 1) (s.blocks i))
          (counted_read s)
unfolding create_loop
round f i block s h l = rw (h, disk_read-ok i s l)

first_round :
    {s : State} {m : Bits} {nib : ℕ}
    → IsReady s m nib
    → fs_create s
      ≡ create_in 1
          (s.blocks 1)
          (free_slot 1 (s.blocks 1) 129 0)
          (create_loop s.nblocks (1 + 1) (s.blocks 1))
          (counted_read (counted_read s))
unfolding fs_create
first_round {s} {nib} r =
    let map : is_mounted s.bitmap ≡ true = ap is_mounted r.map in
    let fuel : s.nblocks + 1 ≡ suc s.nblocks = omega arith in
    rw (map, disk_read-ok 0 s (omega (arith, r.room)), fuel)
      (round s.nblocks 1 (s.blocks 0) (counted_read s) (rw r.super (le→leb 1 nib r.some_inodes))
        (omega (arith, r.room, r.some_inodes)))

-- What fs_create has done when it returns `r`: slot `r` of block 1 was the first unused one.
pub record Created (s : State) (m : Bits) (r : ℤ) (t : State) : Type 0 where
  pub number : ℕ
  pub result : r ≡ pos number
  pub found : Found 1 (s.blocks 1) 0 number
  pub inode : load_inode (t.blocks 1) number ≡ cleared (pos 1)
  pub other_inodes : (j : ℕ) → j ≢ number → load_inode (t.blocks 1) j ≡ load_inode (s.blocks 1) j
  pub other_blocks : (i : ℕ) → i ≢ 1 → t.blocks i ≡ s.blocks i
  pub same_size : t.nblocks ≡ s.nblocks
  pub map : t.bitmap ≡ some (record m { bit = update m.bit 1 1 })

create_in_first :
    (j : ℕ) (rest : M ℤ) (s : State) (m : Bits) (b : Block)
    → s.bitmap ≡ some m
    → 1 < m.size
    → 1 < s.nblocks
    → create_in 1 b (some j) rest s
      ≡ ok
          (pos (get_inode_number 1 j))
          (written (marked s m 1 1) 1 (store_inode b j (cleared (pos 1))))
unfolding create_in
create_in_first j rest s m b e h l =
    rw (
      set_bit-ok 1 1 s m e h,
      disk_write-ok 1 (store_inode b j (cleared (pos 1))) (marked s m 1 1) l,
    )

-- On a mounted disk whose first inode block has an unused slot other than slot 0, fs_create
-- returns the number of the first such slot, from 1 to 127. That slot then holds a valid inode of
-- size 0 with no blocks, and block 1 is marked; every other slot of the block, every other
-- block and every other mark stays as it was.
pub fs_create-Created :
    (s : State) (m : Bits) (nib j : ℕ)
    → IsReady s m nib
    → j < 128
    → j ≢ 0
    → IsFree (s.blocks 1) j
    → Returns (Created s m) (fs_create s)
fs_create-Created s m nib j r l ne free =
    let (k, e) = free_slot_total 1 (s.blocks 1) j l (inl ne) free in
    let f = free_slot-Found 1 (s.blocks 1) 129 0 e in
    rw
      (
        first_round r,
        e,
        create_in_first k (create_loop s.nblocks (1 + 1) (s.blocks 1))
            (counted_read (counted_read s)) m (s.blocks 1) r.map
            (omega (arith, r.map_size, r.room, r.some_inodes))
            (omega (arith, r.room, r.some_inodes)),
      )
      (returns (record {
        number = k;
        result = ap pos (get_inode_number-first k);
        found = f;
        inode =
            load-store_inode_self (s.blocks 1) k (cleared (pos 1))
              (cleared-IsInode 1 (omega arith));
        other_inodes = λ i o.
            load-store_inode_ne (s.blocks 1) k i (cleared (pos 1)) (cleared-IsInode 1 (omega arith))
              o;
        other_blocks = λ i o. ground arith;
        same_size = refl;
        map = refl;
      }))
  where
    get_inode_number-first : (k : ℕ) → get_inode_number 1 k ≡ k
    get_inode_number-first k = unfold get_inode_number in omega arith

-- On a mounted disk, the bound of the loop is read from the inode block once the first round is
-- over. So if the slots of block 1 from 1 on are used, and the third integer of that block, the
-- first direct pointer of slot 0, is below 2, fs_create fails, whatever the later inode blocks
-- hold.
pub fs_create_exhausted :
    (s : State) (m : Bits) (nib : ℕ)
    → IsReady s m nib
    → ((j : ℕ) → j < 128 → j ≢ 0 → IsUsed (s.blocks 1) j)
    → leb_ℤ (pos 2) (super_ninodeblocks (s.blocks 1)) ≡ false
    → fs_create s ≡ ok (pos 0) (counted_read (counted_read s))
fs_create_exhausted s m nib r used low =
    rw (first_round r, free_slot_full 1 (s.blocks 1) (λ j l sl. used j l (omega arith)))
      (last_round s.nblocks (s.blocks 1) (counted_read (counted_read s)) (omega (arith, r.room))
        low)
  where
    last_round :
        (f : ℕ) (b : Block) (t : State)
        → 0 < f
        → leb_ℤ (pos 2) (super_ninodeblocks b) ≡ false
        → create_in 1 b none (create_loop f (1 + 1) b) t ≡ ok (pos 0) t
    last_round zero b t h e = absurd (omega arith)
    last_round (suc f) b t h e = unfold create_in create_loop in rw e

disk_read-fuel : (z : ℤ) (s : State) → disk_read z s ≢ out_of_fuel
unfolding disk_read sanity_check
disk_read-fuel z s e = ground arith

disk_write-fuel : (z : ℤ) (b : Block) (s : State) → disk_write z b s ≢ out_of_fuel
unfolding disk_write sanity_check
disk_write-fuel z b s e = ground arith

create_in-fuel :
    (i : ℕ) (b : Block) (o : Option ℕ) (rest : M ℤ) (s : State)
    → rest s ≢ out_of_fuel
    → create_in i b o rest s ≢ out_of_fuel
unfolding create_in
create_in-fuel i b none rest s h = h
create_in-fuel i b (some j) rest s h =
    and_then-fuel (set_bit (pos i) 1 s) _ (set_bit-fuel (pos i) 1 s) λ _ t.
      and_then-fuel (disk_write (pos i) (store_inode b j (cleared (pos 1))) t) _
        (disk_write-fuel (pos i) (store_inode b j (cleared (pos 1))) t) λ _ u. λ e. cc

create_loop-fuel :
    (f i : ℕ) (block : Block) (s : State)
    → i ≤ s.nblocks
    → s.nblocks < i + f
    → create_loop f i block s ≢ out_of_fuel
unfolding create_loop
create_loop-fuel zero i block s h l = absurd (omega arith)
create_loop-fuel (suc f) i block s h l =
    elim (Bool-cases (leb_ℤ (pos i) (super_ninodeblocks block))) [
      | inr past ↦ rw past (λ e. cc)
      | inl more ↦ rw more (elim (lt-cases i s.nblocks) [
        | inl inside ↦ rw (disk_read-ok i s inside) (
            create_in-fuel i (s.blocks i) (free_slot i (s.blocks i) 129 0)
              (create_loop f (i + 1) (s.blocks i)) (counted_read s)
              (create_loop-fuel f (i + 1) (s.blocks i) (counted_read s) (omega arith)
                (omega arith)))
        | inr outside ↦ rw (disk_read_outside i s outside) (λ e. cc)
      ])
    ]

-- The loop of fs_create ends on every disk, whatever it holds: the fuel is never used up.
pub fs_create_terminates : (s : State) → fs_create s ≢ out_of_fuel
unfolding fs_create
fs_create_terminates s = elim (Bool-cases (is_mounted s.bitmap)) [
  | inr no_map ↦ rw no_map (λ e. cc)
  | inl map ↦ rw map (elim (lt-cases 0 s.nblocks) [
    | inl some_blocks ↦ rw (disk_read-ok 0 s some_blocks) (
        create_loop-fuel (s.nblocks + 1) 1 (s.blocks 0) (counted_read s) (omega arith)
          (omega arith))
    | inr empty ↦ rw (disk_read_outside 0 s empty) (λ e. cc)
  ])
]
