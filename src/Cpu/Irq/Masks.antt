-- ===== src/Cpu/Irq/Masks.antt =====
-- Which lines the controllers of kernel/cpu/irq.c let through.
use wjos.Common.{
  ℕ, zero, suc, ap, sym, ◌∙◌, ltb→lt, lt→ltb, ◌-◌, ◌^◌, ◌<◌, ◌≤◌, ◌≡◌, refl, inl, inr, Bool, true,
  false, not, ◌&&◌, ◌||◌, arith, ltb, ◌==◌, Bool-cases, if◌then◌else◌,
}
use Prim.Native.Nat.{bit_and}
use wjos.Common.Words.{pow_pos}
use wjos.Bitmap.{put_bit}
use wjos.Bitmap.Bytes.{put_bit-check}
use wjos.Cpu.Irq.{Pic, set_line, irq_enable, irq_disable}

-- The line of an interrupt is not masked.
abbrev pub is_enabled : Pic → ℕ → Bool
is_enabled pic irq =
    let n = irq - 0x20 in
    if ltb n 8 then bit_and pic.imr0 (2 ^ n) == 0 else bit_and pic.imr1 (2 ^ (n - 8)) == 0

pub record IsValid (pic : Pic) : Type 0 where
  pub byte0 : pic.imr0 < 256
  pub byte1 : pic.imr1 < 256

pow_ne : (n : ℕ) → (2 ^ n == 0) ≡ false
pow_ne n = ground (arith, pow_pos n)

clear_line :
    (mask n m : ℕ)
    → mask < 256
    → n < 8
    → m < 8
    → (bit_and (put_bit mask n 0) (2 ^ m) == 0) ≡ ((m == n) || (bit_and mask (2 ^ m) == 0))
clear_line mask n m hb hn hm = elim (Bool-cases (m == n)) [
  | inl e ↦ rw ((put_bit-check mask n m hb hn hm 0).0, e) refl
  | inr e ↦ rw ((put_bit-check mask n m hb hn hm 0).0, e) refl
]

mask_line :
    (mask n m : ℕ)
    → mask < 256
    → n < 8
    → m < 8
    → (bit_and (put_bit mask n 1) (2 ^ m) == 0) ≡ (not (m == n) && (bit_and mask (2 ^ m) == 0))
mask_line mask n m hb hn hm = elim (Bool-cases (m == n)) [
  | inl e ↦ rw ((put_bit-check mask n m hb hn hm 1).0, e) (pow_ne n)
  | inr e ↦ rw ((put_bit-check mask n m hb hn hm 1).0, e) refl
]

-- What a line is after a write of `bit` to the line of `irq`.
abbrev pub after : ℕ → Bool → Bool → Bool
after bit same before = if bit == 0 then same || before else (not same && before)

write_line :
    (bit mask n m : ℕ)
    → bit < 2
    → mask < 256
    → n < 8
    → m < 8
    → (bit_and (put_bit mask n bit) (2 ^ m) == 0) ≡ after bit (m == n) (bit_and mask (2 ^ m) == 0)
write_line zero mask n m lb hb hn hm = clear_line mask n m hb hn hm
write_line (suc zero) mask n m lb hb hn hm = mask_line mask n m hb hn hm
write_line (suc (suc bit)) mask n m lb hb hn hm = absurd (omega (arith, lb))

other_line : (bit : ℕ) (b : Bool) → bit < 2 → after bit false b ≡ b
other_line zero b lb = refl
other_line (suc zero) b lb = refl
other_line (suc (suc bit)) b lb = absurd (omega (arith, lb))

same_line : (n m d : ℕ) → d ≤ n → d ≤ m → (m - d == n - d) ≡ (m == n)
same_line n m d a b = ground (arith, a, b)

set_line-is_enabled :
    (bit : ℕ) (pic : Pic) (irq other : ℕ)
    → bit < 2
    → IsValid pic
    → 0x20 ≤ irq
    → irq < 0x30
    → 0x20 ≤ other
    → other < 0x30
    → is_enabled (set_line bit pic irq) other ≡ after bit (other == irq) (is_enabled pic other)
unfolding set_line
set_line-is_enabled bit pic irq other lb v li hi lo ho = elim (Bool-cases (ltb (irq - 0x20) 8)) [
  | inl e ↦ elim (Bool-cases (ltb (other - 0x20) 8)) [
    | inl f ↦
        rw (low, e, f)
          (write_line bit pic.imr0 (irq - 0x20) (other - 0x20) lb v.byte0 (ltb→lt _ _ e)
              (ltb→lt _ _ f)
            ∙ ap (λ s. after bit s (bit_and pic.imr0 (2 ^ (other - 0x20)) == 0))
                (same_line irq other 0x20 li lo))
    | inr f ↦ rw (low, e, f, apart irq other e f) (sym (other_line bit _ lb))
  ]
  | inr e ↦ elim (Bool-cases (ltb (other - 0x20) 8)) [
    | inl f ↦ rw (low, e, f, apart' irq other e f) (sym (other_line bit _ lb))
    | inr f ↦
        rw (low, e, f, lt→ltb (irq - 0x20 - 8) 8 (omega (arith, hi)))
          (write_line bit pic.imr1 (irq - 0x20 - 8) (other - 0x20 - 8) lb v.byte1
              (omega (arith, hi)) (omega (arith, ho))
            ∙ ap (λ s. after bit s (bit_and pic.imr1 (2 ^ (other - 0x20 - 8)) == 0))
                (same_line (irq - 0x20) (other - 0x20) 8 (not_below _ e) (not_below _ f)
                  ∙ same_line irq other 0x20 li lo))
  ]
]
  where
    low : ltb irq 0x20 ≡ false
    low = ground (arith, li)

    not_below : (n : ℕ) → ltb n 8 ≡ false → 8 ≤ n
    not_below n e = ground (arith, e)

    apart :
        (irq other : ℕ)
        → ltb (irq - 0x20) 8 ≡ true
        → ltb (other - 0x20) 8 ≡ false
        → (other == irq) ≡ false
    apart irq other e f = ground (arith, e, f)

    apart' :
        (irq other : ℕ)
        → ltb (irq - 0x20) 8 ≡ false
        → ltb (other - 0x20) 8 ≡ true
        → (other == irq) ≡ false
    apart' irq other e f = ground (arith, e, f)

-- Where the masks are bytes, for two lines of the controllers: after irq_enable of the first, the
-- second one is enabled exactly when it is the first or was enabled; after irq_disable, exactly when
-- it is another and was enabled.
pub irq_enable-irq_disable :
    (pic : Pic) (irq other : ℕ)
    → IsValid pic
    → 0x20 ≤ irq
    → irq < 0x30
    → 0x20 ≤ other
    → other < 0x30
    → (is_enabled (irq_enable pic irq) other ≡ ((other == irq) || is_enabled pic other))
      × (is_enabled (irq_disable pic irq) other ≡ (not (other == irq) && is_enabled pic other))
unfolding irq_enable irq_disable
irq_enable-irq_disable pic irq other v li hi lo ho = (
  set_line-is_enabled 0 pic irq other (omega arith) v li hi lo ho,
  set_line-is_enabled 1 pic irq other (omega arith) v li hi lo ho,
)
