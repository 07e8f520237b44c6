-- ===== src/Common/Int.antt =====
-- The C++ `int` that `std::stoi` returns, and its casts to the unsigned types.
use Prim.Native.Nat.{ℕ, ◌-◌, ◌%◌, ◌<◌}
use native.Mathlib.Omega.{arith}

-- `negsuc n` is -(n + 1).
pub data ℤ : Type 0 where
  pos : ℕ → ℤ
  negsuc : ℕ → ℤ

-- static_cast to an unsigned type with the modulus `m`.
abbrev pub to_unsigned : ℕ → ℤ → ℕ
to_unsigned m (pos n) = n % m
to_unsigned m (negsuc n) = m - 1 - n % m

abbrev pub u8 : ℤ → ℕ
u8 = to_unsigned 256

abbrev pub u16 : ℤ → ℕ
u16 = to_unsigned 65536

abbrev pub u32 : ℤ → ℕ
u32 = to_unsigned 4294967296

pub u8-lt : (z : ℤ) → u8 z < 256
u8-lt (pos n) = omega arith
u8-lt (negsuc n) = omega arith
