-- ===== src/Domain/Value.antt =====
-- The values that Go keeps in an `interface{}`, and their conversions (the type switches toBool,
-- toInt64, toUint64 and toFloat64 of internal/adapter/modbus/conversion.go). `int` and `uint` have
-- 64 bits.
use protocol_gateway.Prelude.{ℕ, Bool, not, String, Option, none, some, ◌==◌}
use protocol_gateway.Prelude.Int.{ℤ, pos, signed, wrap, is_zero}
use protocol_gateway.Domain.Float.{Floats, is_zero32, is_zero64}

-- A float is its bit pattern. `other` is a value of any type that the switches do not name.
pub data Value : Type 0 where
  null : Value
  bool : Bool → Value
  int int8 int16 int32 int64 : ℤ → Value
  uint uint8 uint16 uint32 uint64 : ℕ → Value
  float32 float64 : ℕ → Value
  other : String → Value

-- The second result of the switch, `ok`, is false exactly at `none`.
unfoldable pub to_bool : Value → Option Bool
to_bool (bool b) = some b
to_bool (int v) = some (not (is_zero v))
to_bool (int8 v) = some (not (is_zero v))
to_bool (int16 v) = some (not (is_zero v))
to_bool (int32 v) = some (not (is_zero v))
to_bool (int64 v) = some (not (is_zero v))
to_bool (uint v) = some (not (v == 0))
to_bool (uint8 v) = some (not (v == 0))
to_bool (uint16 v) = some (not (v == 0))
to_bool (uint32 v) = some (not (v == 0))
to_bool (uint64 v) = some (not (v == 0))
to_bool (float32 v) = some (not (is_zero32 v))
to_bool (float64 v) = some (not (is_zero64 v))
to_bool null = none
to_bool (other s) = none

module _ (fl : Floats) where
  unfoldable pub to_int64 : Value → Option ℤ
  to_int64 (int v) = some v
  to_int64 (int8 v) = some v
  to_int64 (int16 v) = some v
  to_int64 (int32 v) = some v
  to_int64 (int64 v) = some v
  to_int64 (uint v) = some (signed 64 v)
  to_int64 (uint8 v) = some (pos v)
  to_int64 (uint16 v) = some (pos v)
  to_int64 (uint32 v) = some (pos v)
  to_int64 (uint64 v) = some (signed 64 v)
  to_int64 (float32 v) = some (fl.to_int64_32 v)
  to_int64 (float64 v) = some (fl.to_int64 v)
  to_int64 null = none
  to_int64 (bool b) = none
  to_int64 (other s) = none

  unfoldable pub to_uint64 : Value → Option ℕ
  to_uint64 (int v) = some (wrap 64 v)
  to_uint64 (int8 v) = some (wrap 64 v)
  to_uint64 (int16 v) = some (wrap 64 v)
  to_uint64 (int32 v) = some (wrap 64 v)
  to_uint64 (int64 v) = some (wrap 64 v)
  to_uint64 (uint v) = some v
  to_uint64 (uint8 v) = some v
  to_uint64 (uint16 v) = some v
  to_uint64 (uint32 v) = some v
  to_uint64 (uint64 v) = some v
  to_uint64 (float32 v) = some (fl.to_uint64_32 v)
  to_uint64 (float64 v) = some (fl.to_uint64 v)
  to_uint64 null = none
  to_uint64 (bool b) = none
  to_uint64 (other s) = none

  unfoldable pub to_float64 : Value → Option ℕ
  to_float64 (int v) = some (fl.of_int v)
  to_float64 (int8 v) = some (fl.of_int v)
  to_float64 (int16 v) = some (fl.of_int v)
  to_float64 (int32 v) = some (fl.of_int v)
  to_float64 (int64 v) = some (fl.of_int v)
  to_float64 (uint v) = some (fl.of_uint v)
  to_float64 (uint8 v) = some (fl.of_uint v)
  to_float64 (uint16 v) = some (fl.of_uint v)
  to_float64 (uint32 v) = some (fl.of_uint v)
  to_float64 (uint64 v) = some (fl.of_uint v)
  to_float64 (float32 v) = some (fl.widen v)
  to_float64 (float64 v) = some v
  to_float64 null = none
  to_float64 (bool b) = none
  to_float64 (other s) = none
