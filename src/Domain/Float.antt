-- ===== src/Domain/Float.antt =====
-- Go's floats as IEEE 754 bit patterns. Comparison with 0 and 1 is written out; the arithmetic
-- and the conversions of the Go runtime are a parameter.
use protocol_gateway.Prelude.{ℕ, ◌^◌, ◌%◌, ◌==◌, Bool}
use protocol_gateway.Prelude.Int.{ℤ}

pub record Floats : Type 0 where
  pub add : ℕ → ℕ → ℕ
  pub sub : ℕ → ℕ → ℕ
  pub mul : ℕ → ℕ → ℕ
  pub div : ℕ → ℕ → ℕ
  pub of_int : ℤ → ℕ
  pub of_uint : ℕ → ℕ
  pub widen : ℕ → ℕ  -- float64(float32)
  pub narrow : ℕ → ℕ  -- float32(float64)
  pub to_int64 : ℕ → ℤ
  pub to_uint64 : ℕ → ℕ
  pub to_int64_32 : ℕ → ℤ  -- int64(float32)
  pub to_uint64_32 : ℕ → ℕ  -- uint64(float32)

-- 1.0, and the tests `x == 0`, which both signs of zero pass.
abbrev pub one64 : ℕ
one64 = 0x3FF0_0000_0000_0000

abbrev pub is_zero64 : ℕ → Bool
is_zero64 b = b % 2 ^ 63 == 0

abbrev pub is_zero32 : ℕ → Bool
is_zero32 b = b % 2 ^ 31 == 0
