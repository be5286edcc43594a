-- ===== src/Fat/Name.antt =====
-- 8.3 names in kernel/fs/fatfs/fatfs.c: `to_sfn`, `diritem_get_name` and `diritem_name_match`.
-- A C string is the list of its characters before the final 0.
pub mod Laws
use wjos.Common.{
  ℕ, zero, suc, ◌+◌, ◌-◌, Bool, true, false, ◌&&◌, List, [], ◌∷◌, ◌++◌, ltb, leb, ◌==◌,
  if◌then◌else◌, length, take, set, replicate, Option, none, some,
}

abbrev pub sfn_len : ℕ
sfn_len = 11

-- `c - 'a' + 'A'` for a small letter.
unfoldable pub to_upper : ℕ → ℕ
to_upper c = if leb b'a' c && leb c b'z' then c - 32 else c

-- The loop of `to_sfn`, with `curr` as an index into `dest`.
unfoldable pub sfn_loop : List ℕ → ℕ → List ℕ → List ℕ
unfolding to_upper
sfn_loop [] curr dest = dest
sfn_loop (c ∷ src) curr dest = elim (ltb curr sfn_len) [
  | true ↦ elim (c == b'.') [
    | true ↦ sfn_loop src 8 dest
    | false ↦ sfn_loop src (curr + 1) (set dest curr (to_upper c))
  ]
  | false ↦ dest
]

unfoldable pub to_sfn : List ℕ → List ℕ
unfolding sfn_loop
to_sfn src = sfn_loop src 0 (replicate sfn_len b' ')

-- `kernel_memcmp` of two ranges of the same length: 0 if they agree.
unfoldable pub memcmp : List ℕ → List ℕ → ℕ
memcmp [] ys = 0
memcmp (x ∷ xs) [] = 0
memcmp (x ∷ xs) (y ∷ ys) = if x == y then memcmp xs ys else 1

-- `diritem_name_match`, of the name field of a directory item.
unfoldable pub name_match : List ℕ → List ℕ → Bool
unfolding to_sfn memcmp
name_match name path = memcmp (to_sfn path) name == 0

-- The loop of `diritem_get_name` over the rest of the name from index `i` on: the characters
-- written so far, and the place of the dot.
unfoldable pub name_loop : List ℕ → ℕ → List ℕ → Option ℕ → List ℕ × Option ℕ
name_loop [] i out ext = (out, ext)
name_loop (c ∷ name) i out ext =
    let out' = if c == b' ' then out else out ++ (c ∷ []) in
    elim (i == 7) [
      | true ↦ name_loop name (i + 1) (out' ++ (b'.' ∷ [])) (some (length out'))
      | false ↦ name_loop name (i + 1) out' ext
    ]

-- A dot with nothing behind it is cut off.
unfoldable pub cut_dot : List ℕ × Option ℕ → List ℕ
cut_dot (out, none) = out
cut_dot (out, some ext) = if length out == (ext + 1) then take ext out else out

unfoldable pub get_name : List ℕ → List ℕ
unfolding name_loop cut_dot
get_name name = cut_dot (name_loop name 0 [] none)
