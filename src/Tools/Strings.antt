-- ===== src/Tools/Strings.antt =====
-- The string functions of kernel/tools/klib.c. A string is its bytes before the final 0, and a
-- pointer that is null is not passed.
pub mod Laws
use wjos.Common.{
  ℕ, zero, suc, ◌+◌, ◌-◌, ◌≤◌, ◌<◌, ◌≡◌, refl, Bool, true, false, not, ◌&&◌, ◌||◌, Option, none,
  some, List, [], ◌∷◌, ◌++◌, arith, ltb, ◌==◌, if◌then◌else◌, length, take, length-append, ap, ◌∙◌,
  sym,
}

-- The loop of `kernel_strncpy`: the characters copied, and whether `size` is 0 behind it, which it is
-- where the string ends just before the buffer does. At -1 it is not.
unfoldable pub copy_loop : ℕ → List ℕ → List ℕ × Bool
copy_loop zero src = ([], false)
copy_loop (suc size) [] = ([], size == 0)
copy_loop (suc size) (c ∷ src) = let (cs, at_end) = copy_loop size src in (c ∷ cs, at_end)

-- All but the last.
unfoldable pub cut : List ℕ → List ℕ
cut [] = []
cut (c ∷ []) = []
cut (c ∷ d ∷ cs) = c ∷ cut (d ∷ cs)

-- The bytes that `kernel_strncpy` leaves at the destination, the final 0 included.
unfoldable pub strncpy : List ℕ → ℕ → List ℕ
unfolding copy_loop cut
strncpy src size =
    let (cs, at_end) = copy_loop size src in
    if size == 0 then [] else if at_end then cut cs ++ (0 ∷ []) else cs ++ (0 ∷ [])

-- The string that is read back.
unfoldable pub until_zero : List ℕ → List ℕ
until_zero [] = []
until_zero (c ∷ cs) = let rest = until_zero cs in if c == 0 then [] else c ∷ rest

unfoldable pub copied : List ℕ → ℕ → List ℕ
unfolding strncpy until_zero
copied src size = until_zero (strncpy src size)

-- `size` is tested and never counted down: 0 for equal as far as they go, and 1.
unfoldable pub strcmp : List ℕ → List ℕ → ℕ → ℕ
strcmp [] s2 size = 0
strcmp (c ∷ s1) [] size = 0
strcmp (c ∷ s1) (d ∷ s2) size =
    let rest = strcmp s1 s2 size in
    if (c == d) && not (size == 0) then rest else if c == d then 0 else 1

unfoldable pub memcmp : List ℕ → List ℕ → ℕ → ℕ
memcmp d1 d2 zero = 0
memcmp [] d2 (suc size) = 0
memcmp (c ∷ d1) [] (suc size) = 0
memcmp (c ∷ d1) (d ∷ d2) (suc size) = let rest = memcmp d1 d2 size in if c == d then rest else 1

pub strlen : List ℕ → ℕ
strlen s = length s

-- The last `/` or `\` and what is behind it; the whole name where there is none.
unfoldable pub file_name_from : List ℕ → List ℕ → List ℕ
file_name_from best [] = best
file_name_from best (c ∷ cs) = file_name_from (if (c == 47) || (c == 92) then cs else best) cs

unfoldable pub get_file_name : List ℕ → List ℕ
unfolding file_name_from
get_file_name name = file_name_from name name
