-- ===== src/Bitmap/Set.antt =====
-- `bitmap_set_bit`: the bits that it writes, those that it leaves, and the invariant of the bytes.
use wjos.Common.{
  ℕ, zero, suc, ◌+◌, ◌*◌, ◌/◌, ◌%◌, ◌^◌, ◌≤◌, ◌<◌, ◌≡◌, refl, inl, inr, ◌&&◌, arith, ltb, leb, ◌==◌,
  if◌then◌else◌, Bool-cases, length, get_or, length-set, get_or-set_self, get_or-set_ne, ap, Bool,
}
use wjos.Bitmap.{Bitmap, get_bit, put_bit, write_bit, set_bit}
use wjos.Bitmap.Bytes.{put_bit-check}

-- The storage covers the bits, and holds bytes.
pub record IsValid (b : Bitmap) : Type 0 where
  pub covers : b.bit_count ≤ length b.bits * 8
  pub bytes : (i : ℕ) → get_or b.bits i 0 < 256

module _ (b : Bitmap) (i bit : ℕ) (v : IsValid b) (h : i < b.bit_count) where
  in_storage : i / 8 < length b.bits
  in_storage = omega (arith, v.covers)

  byte-write_bit :
      (k : ℕ)
      → get_or (write_bit b i bit).bits k 0 ≡ (
          if k == (i / 8) then put_bit (get_or b.bits (i / 8) 0) (i % 8) bit else get_or b.bits k 0)
  byte-write_bit k = elim (Bool-cases (k == (i / 8))) [
    | inl e ↦
        let same : k ≡ i / 8 = ground arith in
        rw (e, same) (get_or-set_self b.bits (i / 8) _ 0 in_storage)
    | inr e ↦ rw e (get_or-set_ne b.bits (i / 8) k _ 0 (ground arith))
  ]

  pub write_bit-IsValid : IsValid (write_bit b i bit)
  write_bit-IsValid = record {
    covers = omega (
      arith,
      v.covers,
      length-set b.bits (i / 8) (put_bit (get_or b.bits (i / 8) 0) (i % 8) bit),
    );
    bytes = λ k. ground (
      arith,
      byte-write_bit k,
      v.bytes k,
      put_bit-check (get_or b.bits (i / 8) 0) (i % 8) 0 (v.bytes (i / 8)) (omega arith)
          (omega arith) bit,
    );
  }

  pub get_bit-write_bit :
      (j : ℕ)
      → get_bit (write_bit b i bit) j
        ≡ (if j == i then (if bit == 0 then 0 else 2 ^ (j % 8)) else get_bit b j)
  unfolding get_bit
  get_bit-write_bit j = elim (Bool-cases ((j / 8) == (i / 8))) [
    | inl e ↦
        let same : j / 8 ≡ i / 8 = ground arith in
        rw (byte-write_bit (j / 8), e)
          (ground (
            arith,
            ap (λ k. get_or b.bits k 0) same,
            (put_bit-check (get_or b.bits (i / 8) 0) (i % 8) (j % 8) (v.bytes (i / 8)) (omega arith)
                (omega arith) bit).0,
          ))
    | inr e ↦ rw (byte-write_bit (j / 8), e) (ground arith)
  ]

-- Whether `j` is one of the `count` indices from `index` on that lie in the bitmap.
abbrev pub in_range : Bitmap → ℕ → ℕ → ℕ → Bool
in_range b index count j = leb index j && (ltb j (index + count) && ltb j b.bit_count)

bit_count-write_bit : (b : Bitmap) (i bit : ℕ) → (write_bit b i bit).bit_count ≡ b.bit_count
bit_count-write_bit b i bit = refl

pub set_bit-IsValid :
    (count : ℕ) (b : Bitmap) (index bit : ℕ) → IsValid b → IsValid (set_bit b index count bit)
unfolding set_bit
set_bit-IsValid zero b index bit v = v
set_bit-IsValid (suc count) b index bit v = elim (Bool-cases (ltb index b.bit_count)) [
  | inl e ↦
      rw (e, set_bit)
        (set_bit-IsValid count (write_bit b index bit) (index + 1) bit
          (write_bit-IsValid b index bit v (ground arith)))
  | inr e ↦ rw (e, set_bit) v
]

pub bit_count-set_bit :
    (count : ℕ) (b : Bitmap) (index bit : ℕ) → (set_bit b index count bit).bit_count ≡ b.bit_count
unfolding set_bit
bit_count-set_bit zero b index bit = refl
bit_count-set_bit (suc count) b index bit =
    ground (arith, bit_count-set_bit count (write_bit b index bit) (index + 1) bit)

-- `bitmap_set_bit` writes exactly the indices of the range that lie in the bitmap: there a bit
-- reads as 0 or as its weight after, and every other bit reads as before.
pub get_bit-set_bit :
    (count : ℕ) (b : Bitmap) (index bit j : ℕ)
    → IsValid b
    → get_bit (set_bit b index count bit) j
      ≡ (if in_range b index count j then (if bit == 0 then 0 else 2 ^ (j % 8)) else get_bit b j)
unfolding set_bit
get_bit-set_bit zero b index bit j v = ground arith
get_bit-set_bit (suc count) b index bit j v = elim (Bool-cases (ltb index b.bit_count)) [
  | inl e ↦
      rw (e, set_bit)
        (ground (
          arith,
          get_bit-set_bit count (write_bit b index bit) (index + 1) bit j
              (write_bit-IsValid b index bit v (ground arith)),
          get_bit-write_bit b index bit v (ground arith) j,
        ))
  | inr e ↦ rw (e, set_bit) (ground arith)
]
