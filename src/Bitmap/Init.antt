-- ===== src/Bitmap/Init.antt =====
-- `bitmap_init` of kernel/tools/bitmap.c.
use Prim.Native.Nat.{bit_and, bit_and-bitwise}
use wjos.Common.{
  ℕ, zero, suc, ◌/◌, ◌%◌, ◌^◌, ◌≤◌, ◌<◌, ◌≡◌, refl, List, [], ◌∷◌, true, ◌&&◌, arith, ltb, ◌==◌,
  if◌then◌else◌, ==_iff, length, get_or, check_below, check_below_sound,
}
use wjos.Bitmap.{byte_count, fill, init, get_bit}
use wjos.Bitmap.Set.{IsValid}

get_or-fill :
    (bits : List ℕ) (v size i : ℕ)
    → get_or (fill bits v size) i 0
      ≡ (if ltb i size && ltb i (length bits) then v else get_or bits i 0)
unfolding fill
get_or-fill [] v zero i = ground arith
get_or-fill [] v (suc size) i = ground arith
get_or-fill (x ∷ bits) v zero i = ground arith
get_or-fill (x ∷ bits) v (suc size) zero = ground arith
get_or-fill (x ∷ bits) v (suc size) (suc i) = ground (arith, get_or-fill bits v size i)

length-fill : (bits : List ℕ) (v size : ℕ) → length (fill bits v size) ≡ length bits
unfolding fill
length-fill [] v zero = refl
length-fill [] v (suc size) = refl
length-fill (x ∷ bits) v zero = refl
length-fill (x ∷ bits) v (suc size) = omega (arith, length-fill bits v size)

ones_table : check_below 8 (λ k. bit_and 0xFF (2 ^ k) == 2 ^ k) ≡ true
unfolding check_below
ones_table = refl

bit_and-ones : (k : ℕ) → k < 8 → bit_and 0xFF (2 ^ k) ≡ 2 ^ k
bit_and-ones k h = (==_iff _ _).0 (check_below_sound 8 _ k ones_table h)

module _ (bits : List ℕ) (count : ℕ) (room : byte_count count ≤ length bits) where
  -- `bitmap_init` gives every bit of the bitmap the value of `init_bit`.
  pub get_bit-init :
      (init_bit i : ℕ)
      → i < count
      → get_bit (init bits count init_bit) i ≡ (if init_bit == 0 then 0 else 2 ^ (i % 8))
  unfolding get_bit init byte_count
  get_bit-init init_bit i h = ground (
    arith,
    get_or-fill bits (if init_bit == 0 then 0 else 0xFF) (byte_count count) (i / 8),
    bit_and-ones (i % 8),
    bit_and-bitwise 0 (2 ^ (i % 8)),
  )

  -- Over storage that holds bytes and is long enough, the bitmap is valid.
  pub init-IsValid :
      (init_bit : ℕ) → ((i : ℕ) → get_or bits i 0 < 256) → IsValid (init bits count init_bit)
  unfolding init byte_count
  init-IsValid init_bit bytes = record {
    covers = omega (arith, length-fill bits (if init_bit == 0 then 0 else 0xFF) (byte_count count));
    bytes = λ i.
        ground (
          arith,
          bytes i,
          get_or-fill bits (if init_bit == 0 then 0 else 0xFF) (byte_count count) i,
        );
  }

pub bit_count-init : (bits : List ℕ) (count b : ℕ) → (init bits count b).bit_count ≡ count
unfolding init
bit_count-init bits count b = refl
