-- ===== src/Shell/Tests.antt =====
-- The theorems on the shell at short lines and files.
use wjos.Common.{
  ℕ, ◌≤◌, ◌≡◌, refl, Bool, true, ◌||◌, none, some, List, [], ◌∷◌, ◌++◌, length, if◌then◌else◌,
}
use wjos.Shell.{parse_arg, arg_string}
use wjos.Shell.Words.{parse_arg-arg_string}
use wjos.Shell.Exec.{elf, same}
use wjos.Shell.Files.{Store, do_cat}

-- "  cp a  b", a line feed behind it.
abbrev line : List ℕ
line = 32 ∷ 32 ∷ 99 ∷ 112 ∷ 32 ∷ 97 ∷ 32 ∷ 32 ∷ 98 ∷ 10 ∷ []

abbrev words : List (List ℕ)
words = (99 ∷ 112 ∷ []) ∷ (97 ∷ []) ∷ (98 ∷ []) ∷ []

parsed : parse_arg line ≡ some words
unfolding parse_arg
parsed = refl

parse_arg-arg_string_example :
    (parse_arg (arg_string words) ≡ some words) × (length (arg_string words) ≤ length line)
parse_arg-arg_string_example = parse_arg-arg_string line words parsed

-- The files "a.elf" and "b".
abbrev opens : List ℕ → Bool
opens name = same name ((97 ∷ []) ++ elf) || same name (98 ∷ [])

-- The file "a".
abbrev one_file : Store
one_file = record {
  file = λ name. if same name (97 ∷ []) then some (1 ∷ 2 ∷ []) else none;
  is_same = same;
  can_write = λ name. true;
}

shown : do_cat ((b'c' ∷ []) ∷ (b'a' ∷ []) ∷ []) one_file ≡ some (0, 1 ∷ 2 ∷ [])
unfolding do_cat
shown = refl
