-- ===== src/Common/Words.antt =====
-- 32-bit words with their wrap-around.
use Prim.Native.Nat.{ℕ, zero, suc, ◌+◌, ◌-◌, ◌*◌, ◌%◌, ◌^◌, ◌<◌}
use native.Mathlib.Omega.{arith}
use native.Mathlib.Nat.{pow-suc}
use wjos.Common.Tests.{ltb, if◌then◌else◌}

abbrev pub u32_mod : ℕ
u32_mod = 0x1_0000_0000

-- `uint32_t` addition, subtraction, multiplication and complement.
abbrev pub add32 : ℕ → ℕ → ℕ
add32 a b = (a + b) % u32_mod

abbrev pub sub32 : ℕ → ℕ → ℕ
sub32 a b = (a + u32_mod - b) % u32_mod

abbrev pub mul32 : ℕ → ℕ → ℕ
mul32 a b = (a * b) % u32_mod

abbrev pub not32 : ℕ → ℕ
not32 a = u32_mod - 1 - a

-- 64-bit addition and subtraction, and an `int` of a 32-bit pattern in 64 bits.
abbrev pub u64_mod : ℕ
u64_mod = 0x1_0000_0000_0000_0000

abbrev pub add64 : ℕ → ℕ → ℕ
add64 a b = (a + b) % u64_mod

abbrev pub sub64 : ℕ → ℕ → ℕ
sub64 a b = (a + u64_mod - b) % u64_mod

abbrev pub extend : ℕ → ℕ
extend a = if ltb a 0x8000_0000 then a else a + (u64_mod - u32_mod)

pub pow_pos : (k : ℕ) → 0 < 2 ^ k
pow_pos zero = omega arith
pow_pos (suc k) = rw pow-suc (omega (arith, pow_pos k))
