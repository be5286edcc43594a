-- ===== src/Fat/Name/Laws.antt =====
-- The conversion and the comparison of names in kernel/fs/fatfs/fatfs.c.
use wjos.Common.{
  ℕ, zero, suc, ◌+◌, ◌≡◌, refl, false, ◌&&◌, List, [], ◌∷◌, arith, ltb, leb, ◌==◌, length,
  length-set, set, All, Bool-cases, inl, inr,
}
use wjos.Fat.Name.{sfn_len, to_upper, sfn_loop, to_sfn}

length-sfn_loop :
    (src : List ℕ) (curr : ℕ) (dest : List ℕ) → length (sfn_loop src curr dest) ≡ length dest
unfolding sfn_loop
length-sfn_loop [] curr dest = refl
length-sfn_loop (c ∷ src) curr dest = ground (
  arith,
  length-sfn_loop src 8 dest,
  length-sfn_loop src (curr + 1) (set dest curr (to_upper c)),
  length-set dest curr (to_upper c),
)

-- Every name has eleven characters.
pub length-to_sfn : (src : List ℕ) → length (to_sfn src) ≡ 11
unfolding to_sfn
length-to_sfn src = length-sfn_loop src 0 _

abbrev NotSmall : ℕ → Type 0
NotSmall c = (leb b'a' c && leb c b'z') ≡ false

All-set : (P : ℕ → Type 0) (xs : List ℕ) (i v : ℕ) → All P xs → P v → All P (set xs i v)
All-set P [] i v h p = h
All-set P (x ∷ xs) zero v h p = (p, h.1)
All-set P (x ∷ xs) (suc i) v h p = (h.0, All-set P xs i v h.1 p)

to_upper-NotSmall : (c : ℕ) → NotSmall (to_upper c)
unfolding to_upper
to_upper-NotSmall c = ground arith

sfn_loop-NotSmall :
    (src : List ℕ) (curr : ℕ) (dest : List ℕ)
    → All NotSmall dest
    → All NotSmall (sfn_loop src curr dest)
unfolding sfn_loop
sfn_loop-NotSmall [] curr dest h = h
sfn_loop-NotSmall (c ∷ src) curr dest h = elim (Bool-cases (ltb curr sfn_len)) [
  | inr e ↦ rw (e, sfn_loop) h
  | inl e ↦ elim (Bool-cases (c == b'.')) [
    | inl d ↦ rw (e, d, sfn_loop) (sfn_loop-NotSmall src 8 dest h)
    | inr d ↦
        rw (e, d, sfn_loop)
          (sfn_loop-NotSmall src (curr + 1) (set dest curr (to_upper c))
            (All-set NotSmall dest curr (to_upper c) h (to_upper-NotSmall c)))
  ]
]

-- No name holds a small letter.
pub to_sfn-NotSmall : (src : List ℕ) → All NotSmall (to_sfn src)
unfolding to_sfn
to_sfn-NotSmall src =
    sfn_loop-NotSmall src 0 _
      (refl, (refl, (refl, (refl, (refl, (refl, (refl, (refl, (refl, (refl, (refl, tt)))))))))))
