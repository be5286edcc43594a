-- ===== src/Common/Bits.antt =====
-- `|` on words whose high bits come from the left side alone.
use Prim.Native.Nat.{
  ℕ, zero, suc, ◌+◌, ◌*◌, ◌/◌, ◌^◌, ◌≤◌, ◌<◌, max, bit_or, digits, bit_or-bitwise,
}
use mathlib.Core.Path.{◌≡◌, refl, ap}
use native.Mathlib.Omega.{arith}
use native.Mathlib.Nat.{pow-suc}

-- The recursion on binary digits that `bit_or` stands for, with any count of digits to go.
abbrev or_digits : ℕ → ℕ → ℕ → ℕ
or_digits n a b = digits (λ b. b) max n a b

-- Any count of digits that the first word does not exceed gives the same result.
or_digits-enough : (n m a b : ℕ) → a ≤ n → a ≤ m → or_digits n a b ≡ or_digits m a b
or_digits-enough zero zero a b p q = refl
or_digits-enough zero (suc m) a b p q = let e : a ≡ 0 = omega arith in rw e
or_digits-enough (suc n) zero a b p q = let e : a ≡ 0 = omega arith in rw e
or_digits-enough (suc n) (suc m) zero b p q = refl
or_digits-enough (suc n) (suc m) (suc a) b p q =
    omega (arith, or_digits-enough n m (suc a / 2) (b / 2) (omega arith) (omega arith))

or_digits-none : (n b : ℕ) → or_digits n 0 b ≡ b
or_digits-none zero b = refl
or_digits-none (suc n) b = refl

or_digits-zero : (n a : ℕ) → a ≤ n → or_digits n a 0 ≡ a
or_digits-zero zero a h = omega arith
or_digits-zero (suc n) zero h = refl
or_digits-zero (suc n) (suc a) h = omega (arith, or_digits-zero n (suc a / 2) (omega arith))

module _ (q : ℕ) where
  double : (k : ℕ) → q * 2 ^ suc k ≡ 2 * (q * 2 ^ k)
  double k = omega (arith, ap (λ (t : ℕ). q * t) (pow-suc 2 k))

  or_digits-low :
      (k n a lo y : ℕ)
      → a ≡ q * 2 ^ k + lo
      → lo < 2 ^ k
      → y < 2 ^ k
      → a ≤ n
      → or_digits n a y ≡ q * 2 ^ k + or_digits n lo y
  or_digits-low zero n a lo y e small small' h =
      let no_y : y ≡ 0 = omega arith in
      let no_lo : lo ≡ 0 = omega arith in
      rw (no_y, no_lo) (omega (arith, or_digits-zero n a h, or_digits-none n 0))
  or_digits-low (suc k) zero a lo y e small small' h = omega arith
  or_digits-low (suc k) (suc n) zero lo y e small small' h =
      let no_lo : lo ≡ 0 = omega arith in rw no_lo (omega arith)
  or_digits-low (suc k) (suc n) (suc a) zero y e small small' h = omega (
    arith,
    pow-suc 2 k,
    double k,
    or_digits-none n (y / 2),
    or_digits-low k n (suc a / 2) 0 (y / 2) (omega (arith, double k)) (omega (arith, pow-suc 2 k))
        (omega (arith, pow-suc 2 k)) (omega arith),
  )
  or_digits-low (suc k) (suc n) (suc a) (suc lo) y e small small' h = omega (
    arith,
    pow-suc 2 k,
    double k,
    or_digits-low k n (suc a / 2) (suc lo / 2) (y / 2) (omega (arith, double k))
        (omega (arith, pow-suc 2 k)) (omega (arith, pow-suc 2 k)) (omega arith),
  )

-- Below `2 ^ k` the two words meet, above it the left word stays.
pub bit_or-low :
    (k q lo y : ℕ) → lo < 2 ^ k → y < 2 ^ k → bit_or (q * 2 ^ k + lo) y ≡ q * 2 ^ k + bit_or lo y
bit_or-low k q lo y h h' = omega (
  arith,
  bit_or-bitwise (q * 2 ^ k + lo) y,
  bit_or-bitwise lo y,
  or_digits-low q k (q * 2 ^ k + lo) (q * 2 ^ k + lo) lo y refl h h' (omega arith),
  or_digits-enough lo (q * 2 ^ k + lo) lo y (omega arith) (omega arith),
)
