-- ===== src/FileSystem/Shell/Tests.antt =====
-- Lines and commands of the shell, and the theorems at them.
use c_coding_examples_operat.Common.{
  ◌≡◌, ◌*◌, refl, true, ℕ, pos, negsuc, none, some, List, [], ◌∷◌, All, arith,
}
use c_coding_examples_operat.FileSystem.Machine.{Returns}
use c_coding_examples_operat.FileSystem.Format.{zero_block, inode_blocks, fs_format}
use c_coding_examples_operat.FileSystem.Debug.{
  superblock, valid_magic, blocks_on_disk, blocks_for_inodes, inodes_total, fs_debug,
}
use c_coding_examples_operat.FileSystem.Debug.Formatted.{fs_debug-fs_format}
use c_coding_examples_operat.FileSystem.Copy.ReadOnly.{Quiet, Anything}
use c_coding_examples_operat.FileSystem.Shell.{
  copyin, copyout, command_of, Host, Locals, reply, copied_in, run_command,
}
use c_coding_examples_operat.FileSystem.Shell.Parse.{
  same_word, skip_spaces, word_of, after_word, next_word, sscanf, digits, atoi,
}
use c_coding_examples_operat.FileSystem.Shell.Session.{drop_last, main_start, main_loop}
use c_coding_examples_operat.FileSystem.Shell.ReadOnly.{LineReads, main_loop-Quiet}
use c_coding_examples_operat.FileSystem.Shell.RoundTrip.{Holds, copyout-copyin}
use c_coding_examples_operat.FileSystem.Tests.{blank, one_file, one_file-IsNew}

abbrev locals : Locals
locals = record { in_format = zero_block; in_write = λ _. zero_block; in_buffer = λ _. 0 }

-- Each file of the host holds "hi", and can be written.
abbrev host : Host
host = record { content = λ _. some (b'h' ∷ b'i' ∷ []); writable = λ _. true }

-- "getsize 5", "  ", "cat 5" and "quit"
abbrev read_lines : List (List ℕ)
read_lines =
    (b'g' ∷ b'e' ∷ b't' ∷ b's' ∷ b'i' ∷ b'z' ∷ b'e' ∷ b' ' ∷ b'5' ∷ b'\n' ∷ [])
    ∷ (b' ' ∷ b' ' ∷ b'\n' ∷ [])
    ∷ (b'c' ∷ b'a' ∷ b't' ∷ b' ' ∷ b'5' ∷ b'\n' ∷ [])
    ∷ (b'q' ∷ b'u' ∷ b'i' ∷ b't' ∷ b'\n' ∷ [])
    ∷ []

read_lines-LineReads : All (λ (line : List ℕ). LineReads (next_word (drop_last line))) read_lines
unfolding next_word skip_spaces word_of after_word command_of same_word
read_lines-LineReads = (refl, (tt, (refl, (refl, tt))))

-- "getsize  5" has two words, and a line of blanks none.
two_words :
    sscanf
      (b'g' ∷ b'e' ∷ b't' ∷ b's' ∷ b'i' ∷ b'z' ∷ b'e' ∷ b' ' ∷ b' ' ∷ b'5' ∷ [])
      (main_start host).words
    ≡ (
      pos 2,
      record {
        cmd = some (b'g' ∷ b'e' ∷ b't' ∷ b's' ∷ b'i' ∷ b'z' ∷ b'e' ∷ []);
        arg1 = some (b'5' ∷ []);
        arg2 = none;
      },
    )
unfolding sscanf next_word skip_spaces word_of after_word
two_words = refl

no_words : sscanf (b' ' ∷ b' ' ∷ []) (main_start host).words ≡ (negsuc 0, (main_start host).words)
unfolding sscanf next_word skip_spaces
no_words = refl

atoi-minus : atoi (b'-' ∷ b'1' ∷ b'2' ∷ b'x' ∷ []) ≡ some (negsuc 11)
unfolding atoi digits
atoi-minus = refl

atoi_5 : atoi (b'5' ∷ []) ≡ some (pos 5)
unfolding atoi digits
atoi_5 = refl

main_loop-Quiet_example :
    Quiet one_file Anything (main_loop (λ _. locals) read_lines (main_start host) one_file)
main_loop-Quiet_example =
    main_loop-Quiet (λ _. locals) read_lines host one_file read_lines-LineReads

copyout-copyin_example :
    Returns
      (λ a t.
        (a ≡ reply (copied_in (b'a' ∷ []) (pos 5) 2) host)
        × Returns
            (λ b _. Holds (b'b' ∷ []) (b'h' ∷ b'i' ∷ []) b)
            (run_command locals copyout
              (pos 3)
              (record { cmd = none; arg1 = some (b'5' ∷ []); arg2 = some (b'b' ∷ []) })
              host
              t))
      (run_command locals copyin
        (pos 3)
        (record { cmd = none; arg1 = some (b'a' ∷ []); arg2 = some (b'5' ∷ []) })
        host
        one_file)
copyout-copyin_example =
    copyout-copyin locals locals (b'5' ∷ []) (b'a' ∷ []) (b'b' ∷ []) none (b'h' ∷ b'i' ∷ []) host
      one_file-IsNew atoi_5 refl refl (omega arith) (omega arith)
      ((λ e. omega arith), ((λ e. omega arith), tt))

fs_debug-fs_format_example :
    Returns
      (λ _ t.
        Returns
          (λ lines _.
            lines
            ≡ superblock
              ∷ valid_magic
              ∷ blocks_on_disk (pos 20)
              ∷ blocks_for_inodes (pos (inode_blocks 20))
              ∷ inodes_total (pos (128 * inode_blocks 20))
              ∷ [])
          (fs_debug t))
      (fs_format zero_block blank)
fs_debug-fs_format_example = fs_debug-fs_format zero_block blank refl (omega arith)
