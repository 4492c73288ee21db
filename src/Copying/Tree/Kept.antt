-- ===== src/Copying/Tree/Kept.antt =====
-- What treecopy of "01. System Calls and Error Checking/treecopy.c" copies.
use c_coding_examples_operat.Common.{
  ℕ, suc, ◌+◌, ◌^◌, ◌≤◌, ◌<◌, ◌≡◌, lt→ltb, refl, Bool, true, false, ◌&&◌, Option, some, List, [],
  ◌++◌, length, arith, ap, ◌∙◌, Bool-cases, inl, inr,
}
use mathlib.Core.List.{append-nil}
use c_coding_examples_operat.Common.Pieces.{drop-nil}
use c_coding_examples_operat.Common.Run.{
  Run, aborted, Returns, returns, Returns-bind, Returns-mono, Returns-aborted,
}
use c_coding_examples_operat.Copying.{System, Target, buffer_size, target}
use c_coding_examples_operat.Copying.Chunks.{Works, copy_loop-Wrote}
use c_coding_examples_operat.Copying.Tree.{
  file, directory, special, Entries, end, unreadable, dot, entry, Walker, finish_copy, call,
  filecpy, enter_directory, walk_entries, walk, nothing, success, treecopy,
}

both : (a b : Bool) → (a && b) ≡ true → (a ≡ true) × (b ≡ true)
both true b e = (refl, e)
both false b e = cc

other : (a b : Bool) → a ≡ true → (a && b) ≡ false → b ≡ false
other true b e f = f
other false b e f = cc

-- The directories and files with all that is in them
unfoldable pub kept : Entries → Entries
kept end = end
kept unreadable = end
kept (dot es) = kept es
kept (entry name (file content) es) = entry name (file content) (kept es)
kept (entry name (directory ds) es) = entry name (directory (kept ds)) (kept es)
kept (entry name special es) = kept es

unfoldable pub directories : Entries → ℕ
directories end = 0
directories unreadable = 0
directories (dot es) = directories es
directories (entry name (file content) es) = directories es
directories (entry name (directory ds) es) = suc (directories ds) + directories es
directories (entry name special es) = directories es

unfoldable pub files : Entries → ℕ
files end = 0
files unreadable = 0
files (dot es) = files es
files (entry name (file content) es) = suc (files es)
files (entry name (directory ds) es) = files ds + files es
files (entry name special es) = files es

unfoldable pub bytes : Entries → ℕ
bytes end = 0
bytes unreadable = 0
bytes (dot es) = bytes es
bytes (entry name (file content) es) = length content + bytes es
bytes (entry name (directory ds) es) = bytes ds + bytes es
bytes (entry name special es) = bytes es

-- Each directory can be read to its end.
unfoldable pub readable : Entries → Bool
readable end = true
readable unreadable = false
readable (dot es) = readable es
readable (entry name (file content) es) = readable es
readable (entry name (directory ds) es) = readable ds && readable es
readable (entry name special es) = readable es

-- The files are shorter than `f`.
abbrev pub Shorter : ℕ → Entries → Type 0
Shorter f end = Unit {0}
Shorter f unreadable = Unit {0}
Shorter f (dot es) = Shorter f es
Shorter f (entry name (file content) es) = (length content < f) × Shorter f es
Shorter f (entry name (directory ds) es) = Shorter f ds × Shorter f es
Shorter f (entry name special es) = Shorter f es

-- What has been counted from `s` to `t`
pub record Counted (d n b : ℕ) (s t : Walker) : Type 0 where
  pub dirs : t.dir_count ≡ s.dir_count + d
  pub count : t.file_count ≡ s.file_count + n
  pub size : t.byte_count ≡ s.byte_count + b

Counted-trans :
    (d n b d' n' b' d'' n'' b'' : ℕ) (s t u : Walker)
    → d'' ≡ d + d'
    → n'' ≡ n + n'
    → b'' ≡ b + b'
    → Counted d n b s t
    → Counted d' n' b' t u
    → Counted d'' n'' b'' s u
Counted-trans d n b d' n' b' d'' n'' b'' s t u e f g x y = record {
  dirs = omega (arith, x.dirs, y.dirs);
  count = omega (arith, x.count, y.count);
  size = omega (arith, x.size, y.size);
}

-- There is room in the counts, which are ints, for so many more.
pub record Fits (d n b : ℕ) (s : Walker) : Type 0 where
  pub dirs : s.dir_count + d < 2 ^ 31
  pub count : s.file_count + n < 2 ^ 31
  pub size : s.byte_count + b < 2 ^ 31

Fits-rest :
    (d n b d' n' b' d'' n'' b'' : ℕ) (s t : Walker)
    → d + d' ≤ d''
    → n + n' ≤ n''
    → b + b' ≤ b''
    → Fits d'' n'' b'' s
    → Counted d n b s t
    → Fits d' n' b' t
Fits-rest d n b d' n' b' d'' n'' b'' s t e f g x y = record {
  dirs = omega (arith, x.dirs, y.dirs);
  count = omega (arith, x.count, y.count);
  size = omega (arith, x.size, y.size);
}

Fits-front :
    (d n b d'' n'' b'' : ℕ) (s : Walker)
    → d ≤ d''
    → n ≤ n''
    → b ≤ b''
    → Fits d'' n'' b'' s
    → Fits d n b s
Fits-front d n b d'' n'' b'' s e f g x = record {
  dirs = omega (arith, x.dirs);
  count = omega (arith, x.count);
  size = omega (arith, x.size);
}

-- What is left of the room in front of, and behind, a file or a directory
module _ (content : List ℕ) (es : Entries) (s : Walker)
    (fits : Fits (directories es) (suc (files es)) (length content + bytes es) s) where
  file_front : Fits 0 1 (length content) s
  file_front =
      Fits-front 0 1 (length content) (directories es) (suc (files es)) (length content + bytes es)
        s (omega arith) (omega arith) (omega arith) fits

  file_rest :
      (t : Walker)
      → Counted 0 1 (length content) s t
      → Fits (directories es) (files es) (bytes es) t
  file_rest t =
      Fits-rest 0 1 (length content) (directories es) (files es) (bytes es) (directories es)
        (suc (files es)) (length content + bytes es) s t (omega arith) (omega arith) (omega arith)
        fits

module _ (ds es : Entries) (s t : Walker)
    (fits : Fits
      (suc (directories ds) + directories es)
      (files ds + files es)
      (bytes ds + bytes es)
      s)
    (entered : Counted 1 0 0 s t) where
  directory_room :
      Fits (directories ds + directories es) (files ds + files es) (bytes ds + bytes es) t
  directory_room =
      Fits-rest 1 0 0 (directories ds + directories es) (files ds + files es) (bytes ds + bytes es)
        (suc (directories ds) + directories es) (files ds + files es) (bytes ds + bytes es) s t
        (omega arith) (omega arith) (omega arith) fits entered

  directory_front : Fits (directories ds) (files ds) (bytes ds) t
  directory_front =
      Fits-front (directories ds) (files ds) (bytes ds) (directories ds + directories es)
        (files ds + files es) (bytes ds + bytes es) t (omega arith) (omega arith) (omega arith)
        directory_room

  directory_rest :
      (u : Walker)
      → Counted (directories ds) (files ds) (bytes ds) t u
      → Fits (directories es) (files es) (bytes es) u
  directory_rest u =
      Fits-rest (directories ds) (files ds) (bytes ds) (directories es) (files es) (bytes es)
        (directories ds + directories es) (files ds + files es) (bytes ds + bytes es) t u
        (omega arith) (omega arith) (omega arith) directory_room

module _ (system : System) (works : Works system) where
  call-Counted : (t : Walker) → Returns (λ _ u. Counted 0 0 0 t u) (call system t)
  unfolding call
  call-Counted t =
      let (n, e) = works t.calls in
      rw e (returns (record { dirs = omega arith; count = omega arith; size = omega arith }))

finish_copy-Counted :
    (content : List ℕ) (u : Walker) {r : Run Target (Option ℕ)}
    → Fits 0 1 (length content) u
    → Returns
        (λ o z. (o ≡ some (u.byte_count + length content)) × (z.front ++ z.behind ≡ content))
        r
    → Returns (λ c v. (c ≡ content) × Counted 0 1 (length content) u v) (finish_copy r u)
finish_copy-Counted content u fits (returns (e, g)) =
    rw (e, lt→ltb (u.file_count + 1) (2 ^ 31) fits.count)
      (returns (g, record { dirs = omega arith; count = refl; size = refl }))

module _ (system : System) (works : Works system) (w f : ℕ) (enough : buffer_size < w) where
  -- A file copied into a new one
  filecpy-Counted :
      (content : List ℕ) (s : Walker)
      → length content < f
      → Fits 0 1 (length content) s
      → Returns
          (λ c v. (c ≡ content) × Counted 0 1 (length content) s v)
          (filecpy system w f [] content s)
  unfolding filecpy
  filecpy-Counted content s h fits = Returns-bind (call-Counted system works s) λ _ t x.
      Returns-bind (call-Counted system works t) λ _ u y.
        Returns-mono
          (finish_copy-Counted content u (room s t u x y fits) (
            Returns-mono
              (copy_loop-Wrote system works w f content u.byte_count (target u.calls []) enough h
                (room s t u x y fits).size)
              λ o z (e, v). (
                e,
                ap (λ (xs : List ℕ). xs ++ z.behind) v.front
                    ∙ ap (λ (xs : List ℕ). content ++ xs) (v.behind ∙ drop-nil (length content))
                    ∙ append-nil content,
              )))
          λ c v (e, z). (
            e,
            Counted-trans 0 0 0 0 1 (length content) 0 1 (length content) s u v (omega arith)
                (omega arith) (omega arith)
                (Counted-trans 0 0 0 0 0 0 0 0 0 s t u (omega arith) (omega arith) (omega arith) x
                  y)
                z,
          )
    where
      room :
          (s t u : Walker)
          → Counted 0 0 0 s t
          → Counted 0 0 0 t u
          → Fits 0 1 (length content) s
          → Fits 0 1 (length content) u
      room s t u x y fits =
          Fits-rest 0 0 0 0 1 (length content) 0 1 (length content) t u (omega arith) (omega arith)
            (omega arith)
            (Fits-rest 0 0 0 0 1 (length content) 0 1 (length content) s t (omega arith)
              (omega arith) (omega arith) fits x)
            y

  enter_directory-Counted :
      (s : Walker)
      → s.dir_count + 1 < 2 ^ 31
      → Returns (λ _ v. Counted 1 0 0 s v) (enter_directory system w f s)
  unfolding enter_directory
  enter_directory-Counted s fits = Returns-bind (call-Counted system works s) λ _ t x.
      Returns-bind (call-Counted system works t) λ _ u y.
        rw (lt→ltb (u.dir_count + 1) (2 ^ 31) (omega (arith, x.dirs, y.dirs))) (
          returns (record {
            dirs = omega (arith, x.dirs, y.dirs);
            count = omega (arith, x.count, y.count);
            size = omega (arith, x.size, y.size);
          }))

  walk_entries-Counted :
      (es : Entries) (s : Walker)
      → Shorter f es
      → Fits (directories es) (files es) (bytes es) s
      → readable es ≡ true
      → Returns
          (λ made t. (made ≡ kept es) × Counted (directories es) (files es) (bytes es) s t)
          (walk_entries system w f es s)
  unfolding walk_entries kept directories files bytes readable
  walk_entries-Counted end s h fits r =
      returns (refl, record { dirs = omega arith; count = omega arith; size = omega arith })
  walk_entries-Counted unreadable s h fits r = cc
  walk_entries-Counted (dot es) s h fits r = walk_entries-Counted es s h fits r
  walk_entries-Counted (entry name special es) s h fits r = walk_entries-Counted es s h fits r
  walk_entries-Counted (entry name (file content) es) s (l, h) fits r =
      Returns-bind (filecpy-Counted content s l (file_front content es s fits)) λ c t (e, x).
        Returns-bind (walk_entries-Counted es t h (file_rest content es s fits t x) r)
          λ rest u (g, y). returns (
            ap (λ (k : List ℕ). entry name (file k) rest) e ∙ ap (entry name (file content)) g,
            Counted-trans 0 1 (length content) (directories es) (files es) (bytes es)
                (directories es) (suc (files es)) (length content + bytes es) s t u (omega arith)
                (omega arith) refl x y,
          )
  walk_entries-Counted (entry name (directory ds) es) s (l, h) fits r =
      Returns-bind (enter_directory-Counted s (omega (arith, fits.dirs))) λ _ t x.
        Returns-bind
          (walk_entries-Counted ds t l (directory_front ds es s t fits x)
            (both (readable ds) (readable es) r).0)
          λ made u (e, y).
            Returns-bind
              (walk_entries-Counted es u h (directory_rest ds es s t fits x u y)
                (both (readable ds) (readable es) r).1)
              λ rest v (g, z). returns (
                ap (λ (k : Entries). entry name (directory k) rest) e
                    ∙ ap (entry name (directory (kept ds))) g,
                Counted-trans (suc (directories ds)) (files ds) (bytes ds) (directories es)
                    (files es) (bytes es) (suc (directories ds) + directories es)
                    (files ds + files es) (bytes ds + bytes es) s u v refl refl refl
                    (Counted-trans 1 0 0 (directories ds) (files ds) (bytes ds)
                      (suc (directories ds)) (files ds) (bytes ds) s t u (omega arith) (omega arith)
                      (omega arith) x y)
                    z,
              )

  -- Where some directory cannot be read to its end
  walk_entries-aborted :
      (es : Entries) (s : Walker)
      → Shorter f es
      → Fits (directories es) (files es) (bytes es) s
      → readable es ≡ false
      → walk_entries system w f es s ≡ aborted
  unfolding walk_entries directories files bytes readable
  walk_entries-aborted end s h fits r = cc
  walk_entries-aborted unreadable s h fits r = refl
  walk_entries-aborted (dot es) s h fits r = walk_entries-aborted es s h fits r
  walk_entries-aborted (entry name special es) s h fits r = walk_entries-aborted es s h fits r
  walk_entries-aborted (entry name (file content) es) s (l, h) fits r =
      Returns-aborted (filecpy-Counted content s l (file_front content es s fits))
        λ c t (_, x). rw (walk_entries-aborted es t h (file_rest content es s fits t x) r) refl
  walk_entries-aborted (entry name (directory ds) es) s (l, h) fits r =
      Returns-aborted (enter_directory-Counted s (omega (arith, fits.dirs))) λ _ t x.
        elim (Bool-cases (readable ds)) [
          | inl e ↦
              Returns-aborted (walk_entries-Counted ds t l (directory_front ds es s t fits x) e)
                λ made u (_, y).
                  rw
                    (walk_entries-aborted es u h (directory_rest ds es s t fits x u y)
                      (other (readable ds) (readable es) e r))
                    refl
          | inr e ↦ rw (walk_entries-aborted ds t l (directory_front ds es s t fits x) e) refl
        ]

  entries_room :
      (es : Entries) (s t : Walker)
      → Fits (1 + directories es) (files es) (bytes es) s
      → Counted 1 0 0 s t
      → Fits (directories es) (files es) (bytes es) t
  entries_room es s t =
      Fits-rest 1 0 0 (directories es) (files es) (bytes es) (1 + directories es) (files es)
        (bytes es) s t (omega arith) (omega arith) (omega arith)

  walk-Counted :
      (es : Entries) (s : Walker)
      → Shorter f es
      → Fits (1 + directories es) (files es) (bytes es) s
      → readable es ≡ true
      → Returns
          (λ made t. (made ≡ kept es) × Counted (1 + directories es) (files es) (bytes es) s t)
          (walk system w f es s)
  walk-Counted es s h fits r =
      Returns-bind (enter_directory-Counted s (omega (arith, fits.dirs))) λ _ t x.
        Returns-mono (walk_entries-Counted es t h (entries_room es s t fits x) r) λ made u (e, y). (
          e,
          Counted-trans 1 0 0 (directories es) (files es) (bytes es) (1 + directories es) (files es)
              (bytes es) s t u refl (omega arith) (omega arith) x y,
        )

  walk-aborted :
      (es : Entries) (s : Walker)
      → Shorter f es
      → Fits (1 + directories es) (files es) (bytes es) s
      → readable es ≡ false
      → walk system w f es s ≡ aborted
  walk-aborted es s h fits r =
      Returns-aborted (enter_directory-Counted s (omega (arith, fits.dirs)))
        λ _ t x. walk_entries-aborted es t h (entries_room es s t fits x) r

-- Where nothing is at the destination and neither a call of open, mkdir, opendir, read nor write fails,
-- however short the reads and writes are, and the counts of directories, of files and of bytes stay
-- below 2^31, treecopy of a directory does this. If each directory can be
-- read to its end, it ends with success: the new directory has the directories and the files with
-- all that is in them, byte for byte, under the same names and in the same order, and nothing of the
-- entries that are neither. DIR_COUNT, FILE_COUNT and BYTE_COUNT, which it prints, are the number of
-- directories with the first one, of files, and of the bytes in those. If readdir fails for one of the
-- directories, the program exits with an error. Fuel above the size of the buffer and above the length
-- of each file is enough.
pub treecopy_lem :
    (system : System) (w f : ℕ) (es : Entries) (s : Walker)
    → Works system
    → buffer_size < w
    → Shorter f es
    → Fits (1 + directories es) (files es) (bytes es) s
    → (readable es ≡ true
        → Returns
            (λ o t.
              (o ≡ success (directory (kept es)))
              × Counted (1 + directories es) (files es) (bytes es) s t)
            (treecopy system w f (some (directory es)) nothing s))
      × (readable es ≡ false → treecopy system w f (some (directory es)) nothing s ≡ aborted)
unfolding treecopy
treecopy_lem system w f es s works enough h fits = (
  (λ r.
      Returns-bind (walk-Counted system works w f enough es s h fits r)
        λ made u (e, x). returns (ap (λ (k : Entries). success (directory k)) e, x)),
  (λ r. rw (walk-aborted system works w f enough es s h fits r) refl),
)
