-- ===== src/Fs/Path.antt =====
-- The path functions of kernel/fs/fs.c. A string is its bytes before the final 0.
use wjos.Common.{
  ℕ, ◌≡◌, refl, Bool, true, false, Option, none, some, List, [], ◌∷◌, ◌++◌, arith, ◌==◌,
  if◌then◌else◌, ap, ◌∙◌, ◌↔◌,
}
use wjos.Common.Words.{add32, sub32, mul32}

abbrev pub slash : ℕ
slash = 47

-- The digits are not tested: `n * 10 + *c - '0'` in `int`, on its 32-bit pattern.
unfoldable pub num_from : ℕ → List ℕ → ℕ
num_from n [] = n
num_from n (c ∷ cs) = num_from (sub32 (add32 (mul32 n 10) c) 48) cs

unfoldable pub path_to_num : List ℕ → ℕ
path_to_num path = num_from 0 path

-- `while (*c && *c++ == '/')`: the character that ends the loop is passed over as well.
unfoldable pub skip_slashes : List ℕ → List ℕ
skip_slashes [] = []
skip_slashes (c ∷ cs) = let rest = skip_slashes cs in if c == slash then rest else cs

unfoldable pub skip_name : List ℕ → List ℕ
skip_name [] = []
skip_name (c ∷ cs) = let rest = skip_name cs in if c == slash then cs else rest

-- `none` is the null pointer.
abbrev pub or_null : List ℕ → Option (List ℕ)
or_null [] = none
or_null (c ∷ cs) = some (c ∷ cs)

unfoldable pub path_next_child : List ℕ → Option (List ℕ)
unfolding skip_slashes skip_name
path_next_child path = or_null (skip_name (skip_slashes path))

unfoldable pub path_begin_with : List ℕ → List ℕ → Bool
path_begin_with path [] = true
path_begin_with [] (s ∷ str) = false
path_begin_with (c ∷ path) (s ∷ str) =
    let rest = path_begin_with path str in if c == s then rest else false

begin_with-append : (str rest : List ℕ) → path_begin_with (str ++ rest) str ≡ true
unfolding path_begin_with
begin_with-append [] rest = refl
begin_with-append (s ∷ str) rest = ground (arith, begin_with-append str rest)

begin_with-split :
    (path str : List ℕ) → path_begin_with path str ≡ true → (rest : List ℕ) × (path ≡ str ++ rest)
unfolding path_begin_with
begin_with-split path [] h = (path, refl)
begin_with-split [] (s ∷ str) h = absurd (ground arith)
begin_with-split (c ∷ path) (s ∷ str) h =
    let (rest, e) = begin_with-split path str (ground arith) in (rest, ground (arith, e))

-- path_begin_with tells whether a path is the string with something behind it.
pub path_begin_with_iff :
    (path str : List ℕ)
    → (path_begin_with path str ≡ true) ↔ ((rest : List ℕ) × (path ≡ str ++ rest))
path_begin_with_iff path str = (
  begin_with-split path str,
  λ s. ap (λ p. path_begin_with p str) s.1 ∙ begin_with-append str s.0,
)
