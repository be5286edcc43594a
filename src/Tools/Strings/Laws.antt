-- ===== src/Tools/Strings/Laws.antt =====
-- `kernel_strncpy` and `kernel_strcmp` of kernel/tools/klib.c, for every length of their strings.
use wjos.Common.{
  ℕ, zero, suc, ◌+◌, ◌≤◌, ◌<◌, ◌≡◌, refl, ◌≢◌, Bool, true, false, ◌&&◌, List, [], ◌∷◌, ◌++◌, arith,
  ◌==◌, if◌then◌else◌, All, length, take, length-append, length-take, ap, ◌∙◌, ◌↔◌,
}
use wjos.Tools.Strings.{copy_loop, cut, strncpy, until_zero, copied, strcmp}

-- A string's bytes are not 0.
abbrev pub IsText : List ℕ → Type 0
IsText s = All (λ c. c ≢ 0) s

copy_loop-fits :
    (n : ℕ) (src : List ℕ) → length src < n → copy_loop n src ≡ (src, n == length src + 1)
unfolding copy_loop
copy_loop-fits zero src lt = absurd (omega (arith, lt))
copy_loop-fits (suc n) [] lt = ap (λ b. ([], b)) (ground arith)
copy_loop-fits (suc n) (c ∷ src) lt = ground (arith, copy_loop-fits n src (omega (arith, lt)))

copy_loop-long : (n : ℕ) (src : List ℕ) → n ≤ length src → copy_loop n src ≡ (take n src, false)
unfolding copy_loop
copy_loop-long zero src le = refl
copy_loop-long (suc n) [] le = absurd (omega (arith, le))
copy_loop-long (suc n) (c ∷ src) le = ground (arith, copy_loop-long n src (omega (arith, le)))

until_zero-text : (s : List ℕ) → IsText s → until_zero (s ++ (0 ∷ [])) ≡ s
unfolding until_zero
until_zero-text [] t = refl
until_zero-text (c ∷ s) t = ground (arith, until_zero-text s t.1, t.0)

cut-snoc : (s : List ℕ) (c : ℕ) → cut (s ++ (c ∷ [])) ≡ s
unfolding cut
cut-snoc [] c = refl
cut-snoc (a ∷ []) c = refl
cut-snoc (a ∷ b ∷ s) c = ap (λ l. a ∷ l) (cut-snoc (b ∷ s) c)

-- A string that leaves two bytes or more of the buffer is copied whole.
pub copied-fits :
    (src : List ℕ) (size : ℕ) → IsText src → length src + 1 < size → copied src size ≡ src
unfolding copied strncpy
copied-fits src size t lt =
    let more : (size == 0) ≡ false = ground (arith, lt) in
    let room : (size == length src + 1) ≡ false = ground (arith, lt) in
    rw (copy_loop-fits size src (omega (arith, lt)), more, room, if◌then◌else◌)
      (until_zero-text src t)

-- A string that would just fill the buffer, with its final 0, loses its last character.
pub copied-cuts :
    (src : List ℕ) (c : ℕ) → IsText src → copied (src ++ (c ∷ [])) (length src + 2) ≡ src
unfolding copied strncpy
copied-cuts src c t =
    let len : length (src ++ (c ∷ [])) ≡ length src + 1 = length-append src (c ∷ []) in
    let more : (length src + 2 == 0) ≡ false = ground arith in
    let full : (length src + 2 == length (src ++ (c ∷ [])) + 1) ≡ true = ground (arith, len) in
    rw
      (
        copy_loop-fits (length src + 2) (src ++ (c ∷ [])) (omega (arith, len)),
        more,
        full,
        if◌then◌else◌,
      )
      (rw (cut-snoc src c) (until_zero-text src t))

-- A longer string fills the buffer, and the final 0 is written one byte behind it.
pub strncpy-overflows :
    (src : List ℕ) (size : ℕ) → 0 < size → size ≤ length src → length (strncpy src size) ≡ size + 1
unfolding strncpy
strncpy-overflows src size pos le =
    let more : (size == 0) ≡ false = ground (arith, pos) in
    rw (copy_loop-long size src le, more, if◌then◌else◌)
      (length-append (take size src) (0 ∷ []) ∙ omega (arith, length-take size src, le))

-- Whether one string begins with the other.
abbrev pub agree : List ℕ → List ℕ → Bool
agree [] s2 = true
agree (c ∷ s1) [] = true
agree (c ∷ s1) (d ∷ s2) = (c == d) && agree s1 s2

-- For a size that is not 0, kernel_strcmp answers 0 exactly where one string begins with the other,
-- whatever the size is: it never counts it down.
pub strcmp-agree :
    (s1 s2 : List ℕ) (size : ℕ) → 0 < size → (strcmp s1 s2 size ≡ 0) ↔ (agree s1 s2 ≡ true)
unfolding strcmp
strcmp-agree [] s2 size pos = (λ h. refl, λ h. refl)
strcmp-agree (c ∷ s1) [] size pos = (λ h. refl, λ h. refl)
strcmp-agree (c ∷ s1) (d ∷ s2) size pos = ground (arith, strcmp-agree s1 s2 size pos)
