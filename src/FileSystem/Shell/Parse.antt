-- ===== src/FileSystem/Shell/Parse.antt =====
-- The words of a line in main of "06. File Systems/shell.c": fgets, sscanf with "%s %s %s", and atoi.
use c_coding_examples_operat.Common.{
  ℕ, zero, suc, ◌+◌, ◌-◌, ◌*◌, ◌^◌, ◌==◌, ltb, leb, if◌then◌else◌, Bool, true, false, ◌&&◌, ◌||◌, ℤ,
  pos, negsuc, Option, none, some, List, [], ◌∷◌,
}

-- The characters of a string, without the NUL at its end.
abbrev pub Word : Type 0
Word = List ℕ

unfoldable pub same_word : Word → Word → Bool
same_word [] [] = true
same_word (a ∷ v) (b ∷ w) = a == b && same_word v w
same_word _ _ = false

-- `cmd`, `arg1` and `arg2`; none before something is read into them
pub record Words : Type 0 where
  pub cmd : Option Word
  pub arg1 : Option Word
  pub arg2 : Option Word

-- isspace: the blank, and the characters 9 to 13
abbrev pub is_space : ℕ → Bool
is_space c = c == 32 || (leb 9 c && leb c 13)

unfoldable pub skip_spaces : List ℕ → List ℕ
skip_spaces [] = []
skip_spaces (c ∷ cs) = if is_space c then skip_spaces cs else c ∷ cs

unfoldable pub word_of : List ℕ → Word
word_of [] = []
word_of (c ∷ cs) = if is_space c then [] else c ∷ word_of cs

unfoldable pub after_word : List ℕ → List ℕ
after_word [] = []
after_word (c ∷ cs) = if is_space c then c ∷ cs else after_word cs

abbrev pub scan_word : List ℕ → Option (Word × List ℕ)
scan_word [] = none
scan_word (c ∷ cs) = some (word_of (c ∷ cs), after_word (c ∷ cs))

-- one `%s`: the word, and what is left of the line
unfoldable pub next_word : List ℕ → Option (Word × List ℕ)
next_word text = scan_word (skip_spaces text)

-- The number of words, which is EOF, -1, for a line without one. What is not read stays as it was.
abbrev pub third_word : Option (Word × List ℕ) → Words → ℤ × Words
third_word none w = (pos 2, w)
third_word (some (v, rest)) w = (pos 3, record w { arg2 = some v })

abbrev pub second_word : Option (Word × List ℕ) → Words → ℤ × Words
second_word none w = (pos 1, w)
second_word (some (v, rest)) w = third_word (next_word rest) (record w { arg1 = some v })

abbrev pub first_word : Option (Word × List ℕ) → Words → ℤ × Words
first_word none w = (negsuc 0, w)
first_word (some (v, rest)) w = second_word (next_word rest) (record w { cmd = some v })

unfoldable pub sscanf : List ℕ → Words → ℤ × Words
sscanf text w = first_word (next_word text) w

-- The digits at the beginning of a word, behind the digits that make `n`.
unfoldable pub digits : ℕ → Word → ℕ
digits n [] = n
digits n (c ∷ cs) =
    let rest = digits (n * 10 + (c - 48)) cs in if leb 48 c && leb c 57 then rest else n

-- The number n, or -n; none out of the range of an int
abbrev pub positive : ℕ → Option ℤ
positive n = if ltb n (2 ^ 31) then some (pos n) else none

abbrev pub negative : ℕ → Option ℤ
negative zero = some (pos 0)
negative (suc n) = if ltb n (2 ^ 31) then some (negsuc n) else none

-- atoi of a word, which does not begin with a blank
unfoldable pub atoi : Word → Option ℤ
atoi [] = some (pos 0)
atoi (c ∷ cs) =
    if c == b'-'
    then negative (digits 0 cs)
    else if c == b'+'
    then positive (digits 0 cs)
    else positive (digits 0 (c ∷ cs))
