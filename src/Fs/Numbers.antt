-- ===== src/Fs/Numbers.antt =====
-- `path_to_num` of kernel/fs/fs.c against `kernel_itoa` of kernel/tools/klib.c.
use native.Mathlib.Nat.{pow-suc}
use wjos.Common.{
  ℕ, zero, suc, ◌/◌, ◌%◌, ◌^◌, ◌≤◌, ◌<◌, ◌≡◌, refl, ◌≢◌, inl, inr, true, false, List, [], ◌∷◌, ◌++◌,
  arith, ltb, leb, ◌==◌, if◌then◌else◌, Bool-cases, ap, ◌∙◌,
}
use wjos.Common.Words.{add32, sub32, mul32}
use wjos.Fs.Path.{num_from, path_to_num}
use wjos.Tools.Text.{digit, digits, reverse, itoa}

num_from-snoc :
    (n : ℕ) (cs : List ℕ) (c : ℕ)
    → num_from n (cs ++ (c ∷ [])) ≡ sub32 (add32 (mul32 (num_from n cs) 10) c) 48
unfolding num_from
num_from-snoc n [] c = refl
num_from-snoc n (d ∷ cs) c = num_from-snoc (sub32 (add32 (mul32 n 10) d) 48) cs c

-- One more digit.
push_digit : (n : ℕ) → n < 0x8000_0000 → sub32 (add32 (mul32 (n / 10) 10) (digit (n % 10))) 48 ≡ n
push_digit n lt = ground (arith, lt)

-- A number that is not 0 and below 2 ^ fuel leaves fuel.
fuel_pos : (fuel n : ℕ) → n < 2 ^ fuel → n ≢ 0 → 1 ≤ fuel
fuel_pos zero n lt ne = absurd (omega (arith, lt, ne))
fuel_pos (suc fuel) n lt ne = omega arith

num_from-digits :
    (fuel n : ℕ)
    → n < 2 ^ fuel
    → n < 0x8000_0000
    → 1 ≤ fuel
    → num_from 0 (reverse (digits fuel 10 n)) ≡ n
unfolding digits reverse num_from
num_from-digits zero n lt small pos = absurd (omega (arith, pos))
num_from-digits (suc fuel) n lt small pos = elim (Bool-cases (n / 10 == 0)) [
  | inl e ↦
      let low : num_from 0 [] ≡ n / 10 = ground (arith, e) in
      rw (e, if◌then◌else◌)
        (num_from-snoc 0 [] (digit (n % 10))
          ∙ ap (λ m. sub32 (add32 (mul32 m 10) (digit (n % 10))) 48) low
          ∙ push_digit n small)
  | inr e ↦
      let half : n / 10 < 2 ^ fuel = omega (arith, lt, pow-suc 2 fuel) in
      rw (e, if◌then◌else◌)
        (num_from-snoc 0 (reverse (digits fuel 10 (n / 10))) (digit (n % 10))
          ∙ ap (λ m. sub32 (add32 (mul32 m 10) (digit (n % 10))) 48)
              (num_from-digits fuel (n / 10) half (omega (arith, small))
                (fuel_pos fuel (n / 10) half (ground (arith, e))))
          ∙ push_digit n small)
]

itoa_eq : (n : ℕ) → 0 < n → n < 0x8000_0000 → itoa n 10 ≡ reverse (digits 32 10 n)
unfolding itoa
itoa_eq n pos lt =
    let small : leb 0x8000_0000 n ≡ false = ground (arith, lt) in
    let positive : ltb 0 n ≡ true = ground (arith, pos) in rw (small, positive) refl

-- A positive `int` is printed in base 10 to digits that path_to_num reads back as it.
pub path_to_num-itoa : (n : ℕ) → 0 < n → n < 0x8000_0000 → path_to_num (itoa n 10) ≡ n
unfolding path_to_num
path_to_num-itoa n pos lt =
    ap (num_from 0) (itoa_eq n pos lt) ∙ num_from-digits 32 n (omega (arith, lt)) lt (omega arith)
