-- ===== src/FileSystem/Debug/ReadOnly.antt =====
-- What fs_debug leaves alone.
use c_coding_examples_operat.Common.{
  ℕ, zero, suc, ◌+◌, ◌-◌, ◌*◌, ltb_ℤ, pos, pos_part, is_zero, [], ◌∷◌, ◌++◌, Bool-cases, inl, inr,
}
use c_coding_examples_operat.FileSystem.Block.{Block}
use c_coding_examples_operat.FileSystem.Inode.{Inode, load_inode, super_magic, super_ninodeblocks}
use c_coding_examples_operat.FileSystem.Machine.{State}
use c_coding_examples_operat.FileSystem.Mount.{indirect_blocks}
use c_coding_examples_operat.FileSystem.Debug.{
  superblock, invalid_magic, inode_number, inode_size, direct_blocks, indirect_block,
  indirect_data_blocks, is_magic, list_direct, list_pointers, debug_indirect, debug_inode,
  debug_slots, debug_blocks, super_lines, fs_debug,
}
use c_coding_examples_operat.FileSystem.Copy.ReadOnly.{
  Quiet, Anything, Quiet-bind, pure-Quiet, disk_read-Quiet, pointer_at-Quiet,
}

list_pointers-Quiet : (b : Block) (f l : ℕ) (s : State) → Quiet s Anything (list_pointers b f l s)
unfolding list_pointers
list_pointers-Quiet b zero l s = pure-Quiet s [] tt
list_pointers-Quiet b (suc f) l s = Quiet-bind s _ (pointer_at-Quiet b l s) λ p t a.
    Quiet-bind t _ (list_pointers-Quiet b f (l + 1) t) λ rest u c. pure-Quiet u (p ∷ rest) tt

debug_indirect-Quiet : (n : Inode) (s : State) → Quiet s Anything (debug_indirect n s)
unfolding debug_indirect
debug_indirect-Quiet n s = elim (Bool-cases (ltb_ℤ (pos (5 * 4096)) n.size)) [
  | inl e ↦ rw e (
      Quiet-bind s _ (disk_read-Quiet n.indirect s) λ b t a.
        Quiet-bind t _ (list_pointers-Quiet b (pos_part (indirect_blocks n.size)) 0 t)
          λ ps u c. pure-Quiet u (indirect_block n.indirect ∷ indirect_data_blocks ps ∷ []) tt)
  | inr e ↦ rw e (pure-Quiet s [] tt)
]

debug_inode-Quiet : (j : ℕ) (n : Inode) (s : State) → Quiet s Anything (debug_inode j n s)
unfolding debug_inode
debug_inode-Quiet j n s = elim (Bool-cases (is_zero n.isvalid)) [
  | inl e ↦ rw e (pure-Quiet s [] tt)
  | inr e ↦ rw e (
      Quiet-bind s _ (debug_indirect-Quiet n s) λ more t a.
        pure-Quiet t (inode_number j ∷ inode_size n.size ∷ direct_blocks (list_direct 5 0 n) ∷ more)
          tt)
]

debug_slots-Quiet : (b : Block) (f j : ℕ) (s : State) → Quiet s Anything (debug_slots b f j s)
unfolding debug_slots
debug_slots-Quiet b zero j s = pure-Quiet s [] tt
debug_slots-Quiet b (suc f) j s =
    Quiet-bind s _ (debug_inode-Quiet j (load_inode b j) s) λ first t a.
      Quiet-bind t _ (debug_slots-Quiet b f (j + 1) t) λ rest u c. pure-Quiet u (first ++ rest) tt

debug_blocks-Quiet : (f i : ℕ) (s : State) → Quiet s Anything (debug_blocks f i s)
unfolding debug_blocks
debug_blocks-Quiet zero i s = pure-Quiet s [] tt
debug_blocks-Quiet (suc f) i s = Quiet-bind s _ (disk_read-Quiet (pos i) s) λ b t a.
    Quiet-bind t _ (debug_slots-Quiet b 128 0 t) λ first u c.
      Quiet-bind u _ (debug_blocks-Quiet f (i + 1) u) λ rest v d. pure-Quiet v (first ++ rest) tt

pub fs_debug-Quiet : (s : State) → Quiet s Anything (fs_debug s)
unfolding fs_debug
fs_debug-Quiet s = Quiet-bind s _ (disk_read-Quiet (pos 0) s) λ b t a.
    elim (Bool-cases (is_magic (super_magic b))) [
      | inl e ↦ rw e (
          Quiet-bind t _ (debug_blocks-Quiet (pos_part (super_ninodeblocks b) - 1) 1 t)
            λ rest u c. pure-Quiet u (super_lines b ++ rest) tt)
      | inr e ↦ rw e (pure-Quiet t (superblock ∷ invalid_magic ∷ []) tt)
    ]
