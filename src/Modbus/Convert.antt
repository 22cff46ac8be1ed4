-- ===== src/Modbus/Convert.antt =====
-- internal/adapter/modbus/conversion.go: parseValue, valueToBytes and the scaling.
pub mod RoundTrip
pub mod Total
pub mod InPlace
use protocol_gateway.Prelude.{
  ℕ, ◌*◌, ◌/◌, ◌%◌, ◌^◌, Bool, true, false, not, ◌&&◌, ◌||◌, Option, none, some, List, [], ◌∷◌,
  ◌++◌, length, take, drop, ltb, ◌==◌, if◌then◌else◌,
}
use protocol_gateway.Prelude.Int.{signed, wrap}
use protocol_gateway.Domain.Errors.{
  Result, ok, err, panic, ◌>>=◌, invalid_data_length, invalid_data_type, invalid_write_value,
}
use protocol_gateway.Domain.Float.{Floats, one64, is_zero64}
use protocol_gateway.Domain.Tag.{Tag, DataType, RegisterType}
use protocol_gateway.Domain.Value.{Value, to_bool, to_int64, to_uint64, to_float64}
use protocol_gateway.Modbus.Bytes.{
  get_uint16, get_uint32, get_uint64, put_uint16, put_uint32, put_uint64, reorder_bytes,
}

-- `x & (1 << k) != 0`, on a byte and on a 16-bit word: from the width on, `1 << k` is 0.
abbrev pub test_bit : ℕ → ℕ → Bool
test_bit x k = x / 2 ^ k % 2 == 1

abbrev pub is_bit_register : RegisterType → Bool
is_bit_register RegisterType.coil = true
is_bit_register RegisterType.discrete_input = true
is_bit_register _ = false

coil_value : ℕ → Option ℕ → Bool
coil_value b (some k) = test_bit b k
coil_value b none = not (b == 0)

-- DataTypeBool: `ordered[0] != 0 || ordered[1] != 0`, where `||` reads no further than it must.
any_nonzero : List ℕ → Result Bool
any_nonzero [] = panic
any_nonzero (a ∷ []) = if a == 0 then panic else ok true
any_nonzero (a ∷ b ∷ r) = ok (not (a == 0) || not (b == 0))

decode_bool : List ℕ → Option ℕ → Result Value
unfolding any_nonzero
decode_bool xs (some k) = do v ← get_uint16 xs; ok (Value.bool (test_bit v k))
decode_bool xs none = do b ← any_nonzero xs; ok (Value.bool b)

-- The switch on the data type.
decode : List ℕ → Option ℕ → DataType → Result Value
unfolding decode_bool
decode xs bit DataType.bool = decode_bool xs bit
decode xs bit DataType.int16 = do v ← get_uint16 xs; ok (Value.int16 (signed 16 v))
decode xs bit DataType.uint16 = do v ← get_uint16 xs; ok (Value.uint16 v)
decode xs bit DataType.int32 = do v ← get_uint32 xs; ok (Value.int32 (signed 32 v))
decode xs bit DataType.uint32 = do v ← get_uint32 xs; ok (Value.uint32 v)
decode xs bit DataType.int64 = do v ← get_uint64 xs; ok (Value.int64 (signed 64 v))
decode xs bit DataType.uint64 = do v ← get_uint64 xs; ok (Value.uint64 v)
decode xs bit DataType.float32 = do v ← get_uint32 xs; ok (Value.float32 v)
decode xs bit DataType.float64 = do v ← get_uint64 xs; ok (Value.float64 v)
decode xs bit _ = err invalid_data_type

parse_register : List ℕ → Tag → Result Value × List ℕ
unfolding decode
parse_register xs t =
    let expected = t.register_count * 2 in
    if ltb (length xs) expected
    then (err invalid_data_length, xs)
    else let ordered = reorder_bytes (take expected xs) t.byte_order in
      (decode ordered t.bit_position t.data_type, ordered ++ drop expected xs)

-- parseValue. The bytes are reordered in place, so the slice as it is left comes back too.
unfoldable pub parse_value : List ℕ → Tag → Result Value × List ℕ
unfolding parse_register coil_value
parse_value [] t = (err invalid_data_length, [])
parse_value (x ∷ xs) t =
    if is_bit_register t.register_type
    then (ok (Value.bool (coil_value x t.bit_position)), x ∷ xs)
    else parse_register (x ∷ xs) t

abbrev pub is_unscaled : Tag → Bool
is_unscaled t = t.scale_factor == one64 && is_zero64 t.offset

module _ (fl : Floats) where
  -- The type switch of applyScaling: the float64 of a number that is scaled.
  scalable : Value → Option ℕ
  scalable (Value.int16 v) = some (fl.of_int v)
  scalable (Value.uint16 v) = some (fl.of_uint v)
  scalable (Value.int32 v) = some (fl.of_int v)
  scalable (Value.uint32 v) = some (fl.of_uint v)
  scalable (Value.int64 v) = some (fl.of_int v)
  scalable (Value.uint64 v) = some (fl.of_uint v)
  scalable (Value.float32 v) = some (fl.widen v)
  scalable (Value.float64 v) = some v
  scalable _ = none

  unfoldable pub apply_scaling : Value → Tag → Value
  unfolding scalable
  apply_scaling v t = if is_unscaled t then v else elim (scalable v) [
    | none ↦ v
    | some x ↦ Value.float64 (fl.add (fl.mul x t.scale_factor) t.offset)
  ]

  unfoldable pub reverse_scaling : Value → Tag → Value
  reverse_scaling v t = if is_unscaled t then v else elim (to_float64 fl v) [
    | none ↦ v
    | some x ↦ Value.float64 (fl.div (fl.sub x t.offset) t.scale_factor)
  ]

  or_invalid {ℓ} : {A : Type ℓ} → Option A → (A → List ℕ) → Result (List ℕ)
  or_invalid none put = err invalid_write_value
  or_invalid (some a) put = ok (put a)

  -- A value that is no boolean writes 0, as `false` does.
  bool_word : Option Bool → ℕ
  bool_word (some true) = 1
  bool_word _ = 0

  encode : Value → DataType → Result (List ℕ)
  unfolding or_invalid bool_word
  encode v DataType.bool = ok (put_uint16 (bool_word (to_bool v)))
  encode v DataType.int16 =
      or_invalid (to_int64 fl v) (λ z. put_uint16 (wrap 16 (signed 16 (wrap 16 z))))
  encode v DataType.uint16 = or_invalid (to_int64 fl v) (λ z. put_uint16 (wrap 16 z))
  encode v DataType.int32 =
      or_invalid (to_int64 fl v) (λ z. put_uint32 (wrap 32 (signed 32 (wrap 32 z))))
  encode v DataType.uint32 = or_invalid (to_int64 fl v) (λ z. put_uint32 (wrap 32 z))
  encode v DataType.int64 = or_invalid (to_int64 fl v) (λ z. put_uint64 (wrap 64 z))
  encode v DataType.uint64 = or_invalid (to_uint64 fl v) put_uint64
  encode v DataType.float32 = or_invalid (to_float64 fl v) (λ b. put_uint32 (fl.narrow b))
  encode v DataType.float64 = or_invalid (to_float64 fl v) put_uint64
  encode v _ = err invalid_data_type

  -- valueToBytes.
  unfoldable pub value_to_bytes : Value → Tag → Result (List ℕ)
  unfolding encode
  value_to_bytes v t = do
    bytes ← encode (reverse_scaling v t) t.data_type
    ok (reorder_bytes bytes t.byte_order)
