-- ===== src/S7/Convert.antt =====
-- internal/adapter/s7/conversion.go: parseValue, valueToBytes, the scaling and the sizes. Its type
-- switches are those of Domain.Value. A buffer of the pool is written over its whole length.
pub mod Typed
pub mod Total
pub mod RoundTrip
use protocol_gateway.Prelude.{
  ℕ, ◌+◌, ◌-◌, ◌/◌, ◌%◌, ◌^◌, Bool, true, false, Option, none, some, List, [], ◌∷◌, length, ltb,
  ◌==◌, if◌then◌else◌,
}
use protocol_gateway.Prelude.Int.{signed, wrap}
use protocol_gateway.Domain.Errors.{
  Result, ok, err, panic, ◌>>=◌, invalid_data_length, invalid_data_type, invalid_write_value,
}
use protocol_gateway.Domain.Float.{Floats, is_zero64}
use protocol_gateway.Domain.Tag.{Tag, DataType}
use protocol_gateway.Domain.Value.{Value, to_bool, to_int64, to_uint64, to_float64}
use protocol_gateway.Modbus.Convert.{test_bit, is_unscaled}
use protocol_gateway.Modbus.Bytes.{
  get_uint16, get_uint32, get_uint64, put_uint16, put_uint32, put_uint64,
}

-- `if len(data) < n { return nil, ErrInvalidDataLength }`
sized : ℕ → List ℕ → (List ℕ → Result Value) → Result Value
sized n xs read = if ltb (length xs) n then err invalid_data_length else read xs

-- A word of the data, as a value.
word_of : (ℕ → Value) → List ℕ → Result Value
word_of make xs = do v ← get_uint16 xs; ok (make v)

double_of : (ℕ → Value) → List ℕ → Result Value
double_of make xs = do v ← get_uint32 xs; ok (make v)

quad_of : (ℕ → Value) → List ℕ → Result Value
quad_of make xs = do v ← get_uint64 xs; ok (make v)

-- The switch on the data type; the data is not empty.
decode : List ℕ → ℕ → DataType → Result Value
unfolding sized word_of double_of quad_of
decode [] bit DataType.bool = err invalid_data_length
decode (x ∷ xs) bit DataType.bool = ok (Value.bool (test_bit x bit))
decode xs bit DataType.int16 = sized 2 xs (word_of (λ v. Value.int16 (signed 16 v)))
decode xs bit DataType.uint16 = sized 2 xs (word_of Value.uint16)
decode xs bit DataType.int32 = sized 4 xs (double_of (λ v. Value.int32 (signed 32 v)))
decode xs bit DataType.uint32 = sized 4 xs (double_of Value.uint32)
decode xs bit DataType.int64 = sized 8 xs (quad_of (λ v. Value.int64 (signed 64 v)))
decode xs bit DataType.uint64 = sized 8 xs (quad_of Value.uint64)
decode xs bit DataType.float32 = sized 4 xs (double_of Value.float32)
decode xs bit DataType.float64 = sized 8 xs (quad_of Value.float64)
decode xs bit _ = err invalid_data_type

-- parseValue.
unfoldable pub parse_value : List ℕ → Tag → ℕ → Result Value
unfolding decode
parse_value [] t bit = err invalid_data_length
parse_value (x ∷ xs) t bit = decode (x ∷ xs) bit t.data_type

module _ (fl : Floats) where
  unfoldable pub apply_scaling : Value → Tag → Value
  apply_scaling v t = if is_unscaled t then v else elim (to_float64 fl v) [
    | none ↦ v
    | some x ↦ Value.float64 (fl.add (fl.mul x t.scale_factor) t.offset)
  ]

  -- A scale of zero is not divided by.
  unfoldable pub reverse_scaling : Value → Tag → Value
  reverse_scaling v t = if is_unscaled t then v else elim (to_float64 fl v) [
    | none ↦ v
    | some x ↦
        if is_zero64 t.scale_factor
        then Value.float64 (fl.sub x t.offset)
        else Value.float64 (fl.div (fl.sub x t.offset) t.scale_factor)
  ]

  or_invalid {ℓ} : {A : Type ℓ} → Option A → (A → List ℕ) → Result (List ℕ)
  or_invalid none put = err invalid_write_value
  or_invalid (some a) put = ok (put a)

  -- The byte with the bit alone: `1 << bit` of a byte is 0 from 8 on.
  encode : Value → ℕ → DataType → Result (List ℕ)
  unfolding or_invalid
  encode v bit DataType.bool = or_invalid (to_bool v) (λ b. (if b then 2 ^ bit % 256 else 0) ∷ [])
  encode v bit DataType.int16 =
      or_invalid (to_int64 fl v) (λ z. put_uint16 (wrap 16 (signed 16 (wrap 16 z))))
  encode v bit DataType.uint16 = or_invalid (to_int64 fl v) (λ z. put_uint16 (wrap 16 z))
  encode v bit DataType.int32 =
      or_invalid (to_int64 fl v) (λ z. put_uint32 (wrap 32 (signed 32 (wrap 32 z))))
  encode v bit DataType.uint32 = or_invalid (to_int64 fl v) (λ z. put_uint32 (wrap 32 z))
  encode v bit DataType.int64 = or_invalid (to_int64 fl v) (λ z. put_uint64 (wrap 64 z))
  encode v bit DataType.uint64 = or_invalid (to_uint64 fl v) put_uint64
  encode v bit DataType.float32 = or_invalid (to_float64 fl v) (λ b. put_uint32 (fl.narrow b))
  encode v bit DataType.float64 = or_invalid (to_float64 fl v) put_uint64
  encode v bit _ = err invalid_data_type

  -- valueToBytes.
  unfoldable pub value_to_bytes : Value → Tag → ℕ → Result (List ℕ)
  unfolding encode
  value_to_bytes v t bit = encode (reverse_scaling v t) bit t.data_type

-- getByteCount.
unfoldable pub get_byte_count : DataType → ℕ
get_byte_count DataType.bool = 1
get_byte_count DataType.int16 = 2
get_byte_count DataType.uint16 = 2
get_byte_count DataType.int32 = 4
get_byte_count DataType.uint32 = 4
get_byte_count DataType.float32 = 4
get_byte_count DataType.int64 = 8
get_byte_count DataType.uint64 = 8
get_byte_count DataType.float64 = 8
get_byte_count _ = 1
