-- ===== src/Shell/Files.antt =====
-- The commands cat and touch of shell/cmd. A file is its contents under its name, of which the file
-- system says when two are of one file; `fopen` to write empties a file or makes one, where it may.
use wjos.Common.{
  ℕ, zero, suc, ◌≤◌, ◌≡◌, refl, inl, inr, Bool, true, false, Option, none, some, List, [], ◌∷◌,
  ◌++◌, arith, ◌==◌, if◌then◌else◌, Bool-cases, All, length, length-append, ap, subst, sym, ◌∙◌,
}
use wjos.Shell.{cut}
use wjos.Syscall.{minus_one}

pub record Store : Type 0 where
  pub file : List ℕ → Option (List ℕ)
  pub is_same : List ℕ → List ℕ → Bool
  pub can_write : List ℕ → Bool

abbrev pub put : Store → List ℕ → List ℕ → Store
put st name bytes = record st { file = λ n. if st.is_same n name then some bytes else st.file n }

-- `fopen(name, "wb")`.
abbrev pub open_write : Store → List ℕ → Bool × Store
open_write st name = if st.can_write name then (true, put st name []) else (false, st)

unfoldable pub do_touch : List (List ℕ) → Store → ℕ × Store
do_touch (cmd ∷ name ∷ []) st = (0, (open_write st name).1)
do_touch argv st = (minus_one, st)

-- `fgets` with room for `n` characters: the line read, and the rest.
unfoldable pub fgets : ℕ → List ℕ → List ℕ × List ℕ
fgets zero unread = ([], unread)
fgets (suc n) [] = ([], [])
fgets (suc n) (c ∷ unread) =
    let rest = fgets n unread in if c == 10 then (c ∷ [], unread) else (c ∷ rest.0, rest.1)

-- The loop of `fgets` and `fputs`, on fuel; `fputs` stops at a 0.
unfoldable pub put_lines : ℕ → ℕ → List ℕ → List ℕ
unfolding fgets cut
put_lines room zero unread = []
put_lines room (suc fuel) [] = []
put_lines room (suc fuel) (c ∷ unread) =
    let (line, rest) = fgets room (c ∷ unread) in cut 0 line ++ put_lines room fuel rest

-- The result and what is displayed; `none` where the null pointer of a file that does not open is read.
unfoldable pub do_cat : List (List ℕ) → Store → Option (ℕ × List ℕ)
unfolding put_lines
do_cat (cmd ∷ name ∷ []) st = elim (st.file name) [
  | none ↦ none
  | some contents ↦ some (0, put_lines 254 (length contents) contents)
]
do_cat argv st = some (minus_one, [])

-- A line is the front of what is unread.
fgets_lem : (n : ℕ) (unread : List ℕ) → (fgets n unread).0 ++ (fgets n unread).1 ≡ unread
unfolding fgets
fgets_lem zero unread = refl
fgets_lem (suc n) [] = refl
fgets_lem (suc n) (c ∷ unread) = elim (Bool-cases (c == 10)) [
  | inl e ↦ rw e refl
  | inr e ↦ rw e (ap (λ u. c ∷ u) (fgets_lem n unread))
]

abbrev HasNoZero : List ℕ → Type 0
HasNoZero = All (λ c. (c == 0) ≡ false)

cut_lem : (s : List ℕ) → HasNoZero s → cut 0 s ≡ s
unfolding cut
cut_lem [] z = refl
cut_lem (c ∷ s) (p, z) = rw p (ap (λ u. c ∷ u) (cut_lem s z))

HasNoZero-split : (s t : List ℕ) → HasNoZero (s ++ t) → HasNoZero s × HasNoZero t
HasNoZero-split [] t z = (tt, z)
HasNoZero-split (c ∷ s) t (p, z) = let both = HasNoZero-split s t z in ((p, both.0), both.1)

-- A line takes at least a character.
fgets_less : (n c : ℕ) (unread : List ℕ) → length (fgets (suc n) (c ∷ unread)).1 ≤ length unread
unfolding fgets
fgets_less n c unread = elim (Bool-cases (c == 10)) [
  | inl e ↦ rw e (omega arith)
  | inr e ↦ rw e (rest_length n unread)
]
  where
    rest_length : (n : ℕ) (unread : List ℕ) → length (fgets n unread).1 ≤ length unread
    rest_length n unread =
        omega (
          arith,
          ap length (fgets_lem n unread),
          length-append (fgets n unread).0 (fgets n unread).1,
        )

put_lines_lem :
    (n fuel : ℕ) (contents : List ℕ)
    → length contents ≤ fuel
    → HasNoZero contents
    → put_lines (suc n) fuel contents ≡ contents
unfolding put_lines
put_lines_lem n zero [] le z = refl
put_lines_lem n zero (c ∷ s) le z = absurd (omega (arith, le))
put_lines_lem n (suc fuel) [] le z = refl
put_lines_lem n (suc fuel) (c ∷ s) le z =
    let r = fgets (suc n) (c ∷ s) in
    let whole = fgets_lem (suc n) (c ∷ s) in
    let parts = HasNoZero-split r.0 r.1 (subst HasNoZero (sym whole) z) in
    ap (λ u. u ++ put_lines (suc n) fuel r.1) (cut_lem r.0 parts.0)
    ∙ ap (λ u. r.0 ++ u) (put_lines_lem n fuel r.1 (omega (arith, le, fgets_less n c s)) parts.1)
    ∙ whole

-- A file without a 0 is displayed as it is.
do_cat-contents :
    (cmd name contents : List ℕ) (st : Store)
    → st.file name ≡ some contents
    → HasNoZero contents
    → do_cat (cmd ∷ name ∷ []) st ≡ some (0, contents)
unfolding do_cat
do_cat-contents cmd name contents st there z =
    rw (do_cat, there)
      (ap (λ u. some (0, u)) (put_lines_lem 253 (length contents) contents (omega arith) z))
