-- ===== src/FileSystem/Shell/RoundTrip.antt =====
-- copyin and then copyout, as commands of "06. File Systems/shell.c".
use c_coding_examples_operat.Common.{
  ℕ, ◌<◌, ◌≤◌, ◌≡◌, ◌≢◌, refl, ◌==◌, true, ℤ, pos, Option, some, List, [], ◌∷◌, length, All, arith,
}
use c_coding_examples_operat.FileSystem.Machine.{State, Bits, Returns, returns, Returns-bind}
use c_coding_examples_operat.FileSystem.Write.NewFile.{IsNew}
use c_coding_examples_operat.FileSystem.Copy.RoundTrip.{do_copyout-do_copyin}
use c_coding_examples_operat.FileSystem.Shell.{
  copyin, copyout, Host, Locals, Answer, reply, copied_in, copied_out, run_command,
}
use c_coding_examples_operat.FileSystem.Shell.Parse.{Word, same_word, atoi}

-- The command printed this, and the file of the host has this content.
pub data Holds (name : Word) (content : List ℕ) : Answer → Type 0 where
  holds :
      {num : ℤ} {h : Host}
      → h.content name ≡ some content
      → Holds name content (reply (copied_out num name (length content)) h)

same_word_refl : (w : Word) → same_word w w ≡ true
unfolding same_word
same_word_refl [] = refl
same_word_refl (c ∷ cs) = let e : (c == c) ≡ true = ground arith in rw (e, same_word_refl cs)

-- `copyin <from> <arg>` into a new inode, and then `copyout <arg> <to>`, where `arg` is the number of
-- the inode, `from` has 1 to 4096 bytes with no NUL among them, and `to` can be written: the
-- file `to` of the host gets the content of `from`.
pub copyout-copyin :
    {s : State} {m : Bits} {nib : ℕ} {num : ℤ} {i j p : ℕ} (l k : Locals) (arg from to : Word)
    (other : Option Word) (content : List ℕ) (h : Host)
    → IsNew s m nib num i j p
    → atoi arg ≡ some num
    → h.content from ≡ some content
    → h.writable to ≡ true
    → 0 < length content
    → length content ≤ 4096
    → All (λ (x : ℕ). x ≢ 0) content
    → Returns
        (λ a t.
          (a ≡ reply (copied_in from num (length content)) h)
          × Returns
              (λ b _. Holds to content b)
              (run_command k copyout
                (pos 3)
                (record { cmd = other; arg1 = some arg; arg2 = some to })
                h
                t))
        (run_command l copyin
          (pos 3)
          (record { cmd = other; arg1 = some from; arg2 = some arg })
          h
          s)
unfolding run_command
copyout-copyin l k arg from to other content h v number opened writable some_bytes few plain =
    rw (number, opened)
      (Returns-bind (do_copyout-do_copyin l.in_write l.in_buffer content v some_bytes few plain)
        λ r t (e, out). rw e (
          returns (
            refl,
            rw writable
                (Returns-bind out λ q u g. rw g (returns (holds (rw (same_word_refl to) refl)))),
          )))
