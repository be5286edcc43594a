-- ===== src/Bitmap.antt =====
-- kernel/tools/bitmap.c and bitmap.h: a bit array over bytes, with the first-fit search.
-- An `int bit` is its 32-bit pattern, so `~bit` is `not32 bit` and a test is `bit != 0`.
pub mod Bytes
pub mod Set
pub mod Init
pub mod Alloc
mod Tests
use Prim.Native.Nat.{bit_and, bit_or}
use wjos.Common.{
  ℕ, zero, suc, ◌+◌, ◌-◌, ◌/◌, ◌%◌, ◌^◌, Bool, true, false, Option, none, some, List, [], ◌∷◌, ltb,
  ◌==◌, if◌then◌else◌, get_or, set,
}
use wjos.Common.Words.{not32}

pub record Bitmap : Type 0 where
  pub bit_count : ℕ
  pub bits : List ℕ

unfoldable pub byte_count : ℕ → ℕ
byte_count n = (n + 8 - 1) / 8

-- `kernel_memset` of the first `size` bytes at `bits`.
unfoldable pub fill : List ℕ → ℕ → ℕ → List ℕ
fill bits v zero = bits
fill [] v (suc size) = []
fill (x ∷ bits) v (suc size) = v ∷ fill bits v size

unfoldable pub init : List ℕ → ℕ → ℕ → Bitmap
init bits count init_bit = record {
  bit_count = count;
  bits = fill bits (if init_bit == 0 then 0 else 0xFF) (byte_count count);
}

-- The masked byte: 0, or the bit's weight in its byte.
unfoldable pub get_bit : Bitmap → ℕ → ℕ
get_bit b i = bit_and (get_or b.bits (i / 8) 0) (2 ^ (i % 8))

-- `|= 1 << k` and `&= ~(1 << k)` on a byte.
unfoldable pub put_bit : ℕ → ℕ → ℕ → ℕ
put_bit byte k bit = if bit == 0 then bit_and byte (255 - 2 ^ k) else bit_or byte (2 ^ k)

-- One round of the loop of `bitmap_set_bit`.
abbrev pub write_bit : Bitmap → ℕ → ℕ → Bitmap
write_bit b i bit = record b {
  bits = set b.bits (i / 8) (put_bit (get_or b.bits (i / 8) 0) (i % 8) bit);
}

unfoldable pub set_bit : Bitmap → ℕ → ℕ → ℕ → Bitmap
set_bit b index zero bit = b
set_bit b index (suc count) bit = elim (ltb index b.bit_count) [
  | true ↦ set_bit (write_bit b index bit) (index + 1) count bit
  | false ↦ b
]

pub is_set : Bitmap → ℕ → ℕ
is_set b i = if get_bit b i == 0 then 0 else 1

-- How the `for` loop of `bitmap_alloc_nbits` ends: after all its rounds, or early, with the
-- search index from which the outer loop goes on.
pub data Scan : Type 0 where
  complete : Scan
  stopped : ℕ → Scan

-- That loop with `rounds` comparisons left. The first is of the start index once more.
unfoldable pub scan : Bitmap → ℕ → ℕ → ℕ → Scan
scan b bit zero index = complete
scan b bit (suc rounds) index = elim (ltb index b.bit_count) [
  | true ↦ elim (get_bit b index == bit) [
    | true ↦ scan b bit rounds (index + 1)
    | false ↦ stopped (index + 1)
  ]
  | false ↦ stopped index
]

-- The `while` loop, on fuel: the index that it finds, `none` for -1.
unfoldable pub search_from : ℕ → Bitmap → ℕ → ℕ → ℕ → Option ℕ
search_from zero b bit count index = none
search_from (suc fuel) b bit count index = elim (ltb index b.bit_count) [
  | true ↦ elim (get_bit b index == bit) [
    | true ↦ elim (scan b bit (count - 1) index) [
      | complete ↦ some index
      | stopped next ↦ search_from fuel b bit count next
    ]
    | false ↦ search_from fuel b bit count (index + 1)
  ]
  | false ↦ none
]

-- The search index grows in every round, so `bit_count` rounds reach the end.
abbrev pub find_run : Bitmap → ℕ → ℕ → Option ℕ
find_run b bit count = search_from (b.bit_count + 1) b bit count 0

unfoldable pub alloc_nbits : Bitmap → ℕ → ℕ → Option ℕ × Bitmap
unfolding search_from
alloc_nbits b bit count = elim (find_run b bit count) [
  | none ↦ (none, b)
  | some i ↦ (some i, set_bit b i count (not32 bit))
]
