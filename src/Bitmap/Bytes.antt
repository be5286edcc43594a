-- ===== src/Bitmap/Bytes.antt =====
-- Bits within one byte, by evaluation over all of them.
use Prim.Native.Nat.{bit_and}
use wjos.Common.{
  ℕ, ◌^◌, ◌<◌, ◌≡◌, refl, Bool, true, ◌&&◌, arith, ◌==◌, ltb, if◌then◌else◌, check_below,
  check_below_sound,
}
use wjos.Bitmap.{put_bit}

-- A bit after a write to bit `k` of a byte.
abbrev bit_after : ℕ → ℕ → ℕ → ℕ → ℕ
bit_after byte k bit j = if j == k then (if bit == 0 then 0 else 2 ^ k) else bit_and byte (2 ^ j)

abbrev check : ℕ → ℕ → ℕ → ℕ → Bool
check bit byte k j =
    (bit_and (put_bit byte k bit) (2 ^ j) == bit_after byte k bit j) && ltb (put_bit byte k bit) 256

set_table :
    check_below 256 (λ byte. check_below 8 (λ k. check_below 8 (λ j. check 1 byte k j))) ≡ true
unfolding check_below put_bit
set_table = refl

clear_table :
    check_below 256 (λ byte. check_below 8 (λ k. check_below 8 (λ j. check 0 byte k j))) ≡ true
unfolding check_below put_bit
clear_table = refl

module _ (byte k j : ℕ) (hb : byte < 256) (hk : k < 8) (hj : j < 8) where
  set_check : check 1 byte k j ≡ true
  set_check =
      check_below_sound 8 _ j
        (check_below_sound 8 _ k (check_below_sound 256 _ byte set_table hb) hk) hj

  clear_check : check 0 byte k j ≡ true
  clear_check =
      check_below_sound 8 _ j
        (check_below_sound 8 _ k (check_below_sound 256 _ byte clear_table hb) hk) hj

  -- Any value but 0 sets, as 1 does.
  pub put_bit-check :
      (bit : ℕ)
      → (bit_and (put_bit byte k bit) (2 ^ j) ≡ bit_after byte k bit j) × (put_bit byte k bit < 256)
  unfolding put_bit
  put_bit-check bit = ground (arith, set_check, clear_check)
