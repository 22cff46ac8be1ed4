-- ===== src/Prelude/Int.antt =====
-- Go's signed integers: unbounded integers, and the two's complement words that stand for them.
use protocol_gateway.Prelude.{
  ◌<◌, ◌≤◌, ◌≡◌, ℕ, ◌+◌, ◌-◌, ◌%◌, ◌^◌, Bool, true, false, arith, ltb, leb, if◌then◌else◌,
}

-- `negsuc n` is -(n + 1).
pub data ℤ : Type 0 where
  pos : ℕ → ℤ
  negsuc : ℕ → ℤ

-- The value of a w-bit pattern read as a signed integer: `int16(x)` of a uint16 x.
abbrev pub signed : ℕ → ℕ → ℤ
signed w u = if ltb u (2 ^ (w - 1)) then pos u else negsuc (2 ^ w - 1 - u)

-- The w low bits of an integer: `uint16(v)`, the conversion that wraps.
abbrev pub wrap : ℕ → ℤ → ℕ
wrap w (pos n) = n % 2 ^ w
wrap w (negsuc n) = 2 ^ w - 1 - n % 2 ^ w

abbrev pub is_zero : ℤ → Bool
is_zero (pos n) = if ltb 0 n then false else true
is_zero (negsuc n) = false

-- A pattern read as a signed integer and written back is the pattern.
pub wrap-signed_16 : (u : ℕ) → u < 2 ^ 16 → wrap 16 (signed 16 u) ≡ u
wrap-signed_16 u h = ground arith

pub wrap-signed_32 : (u : ℕ) → u < 2 ^ 32 → wrap 32 (signed 32 u) ≡ u
wrap-signed_32 u h = ground arith

pub wrap-signed_64 : (u : ℕ) → u < 2 ^ 64 → wrap 64 (signed 64 u) ≡ u
wrap-signed_64 u h = ground arith

-- Go's int on its two's complement patterns: sums and differences wrap, and patterns are compared as
-- the signed numbers that they stand for.
unfoldable pub int_add : ℕ → ℕ → ℕ
int_add a b = (a + b) % 2 ^ 64

unfoldable pub int_sub : ℕ → ℕ → ℕ
int_sub a b = (a + (2 ^ 64 - b % 2 ^ 64)) % 2 ^ 64

unfoldable pub int_ltb : ℕ → ℕ → Bool
int_ltb a b = ltb ((a + 2 ^ 63) % 2 ^ 64) ((b + 2 ^ 63) % 2 ^ 64)

unfoldable pub int_leb : ℕ → ℕ → Bool
int_leb a b = leb ((a + 2 ^ 63) % 2 ^ 64) ((b + 2 ^ 63) % 2 ^ 64)

-- Nothing wraps below 2 ^ 63.
pub int_add-small : (a b : ℕ) → a + b < 2 ^ 63 → int_add a b ≡ a + b
unfolding int_add
int_add-small a b h = omega (arith, h)

pub int_sub-small : (a b : ℕ) → b ≤ a → a < 2 ^ 63 → int_sub a b ≡ a - b
unfolding int_sub
int_sub-small a b le h = omega (arith, le, h)

pub int_ltb-small : (a b : ℕ) → a < 2 ^ 63 → b < 2 ^ 63 → int_ltb a b ≡ ltb a b
unfolding int_ltb
int_ltb-small a b h k = ground (arith, h, k)

pub int_leb-small : (a b : ℕ) → a < 2 ^ 63 → b < 2 ^ 63 → int_leb a b ≡ leb a b
unfolding int_leb
int_leb-small a b h k = ground (arith, h, k)
