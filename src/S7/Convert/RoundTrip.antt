-- ===== src/S7/Convert/RoundTrip.antt =====
-- Writing a value by valueToBytes of internal/adapter/s7/conversion.go, and reading it by parseValue.
use protocol_gateway.Prelude.{
  ℕ, zero, suc, ◌^◌, ◌%◌, ◌<◌, ◌≡◌, refl, ap, true, false, List, [], length, arith, ◌∷◌, ◌∙◌,
}
use protocol_gateway.Prelude.Int.{wrap-signed_16, wrap-signed_32, wrap-signed_64}
use protocol_gateway.Domain.Errors.{ok}
use protocol_gateway.Domain.Float.{Floats}
use protocol_gateway.Domain.Tag.{DataType, Tag}
use protocol_gateway.Domain.Value.{Value, to_bool, to_int64, to_uint64, to_float64}
use protocol_gateway.Modbus.Bytes.{
  put_uint16, put_uint32, put_uint64, get_uint16-put_uint16, get_uint32-put_uint32,
  get_uint64-put_uint64,
}
use protocol_gateway.Modbus.Convert.{test_bit, is_unscaled}
use protocol_gateway.Modbus.Convert.RoundTrip.{InRange}
use protocol_gateway.S7.Convert.{
  parse_value, value_to_bytes, reverse_scaling, decode, encode, get_byte_count, word_of, double_of,
  quad_of, sized,
}

-- Bytes `xs` that stand for `v`.
record Encodes (fl : Floats) (dt : DataType) (bit : ℕ) (v : Value) (xs : List ℕ) : Type 0 where
  encoded : encode fl v bit dt ≡ ok xs
  decoded : decode xs bit dt ≡ ok v
  size : length xs ≡ get_byte_count dt

-- `1 << bit` has that bit.
bit_alone : (bit : ℕ) → bit < 8 → test_bit (2 ^ bit % 256) bit ≡ true
bit_alone zero h = refl
bit_alone (suc zero) h = refl
bit_alone (suc (suc zero)) h = refl
bit_alone (suc (suc (suc zero))) h = refl
bit_alone (suc (suc (suc (suc zero)))) h = refl
bit_alone (suc (suc (suc (suc (suc zero))))) h = refl
bit_alone (suc (suc (suc (suc (suc (suc zero)))))) h = refl
bit_alone (suc (suc (suc (suc (suc (suc (suc zero))))))) h = refl
bit_alone (suc (suc (suc (suc (suc (suc (suc (suc n)))))))) h = absurd (ground (arith, h))

no_bit : (bit : ℕ) → test_bit 0 bit ≡ false
no_bit bit = ground arith

encodes :
    (fl : Floats) (dt : DataType) (bit : ℕ) (v : Value)
    → bit < 8
    → InRange fl dt v
    → (xs : List ℕ) × Encodes fl dt bit v xs
unfolding encode decode to_bool to_int64 to_uint64 to_float64 get_byte_count word_of double_of
    quad_of sized put_uint16 put_uint32 put_uint64
encodes fl DataType.bool bit (Value.bool true) b h =
    (_, record { encoded = refl; decoded = rw (bit_alone bit b) refl; size = refl })
encodes fl DataType.bool bit (Value.bool false) b h =
    (_, record { encoded = refl; decoded = rw (no_bit bit) refl; size = refl })
encodes fl DataType.int16 bit (Value.int16 z) b (u, h, e) = (
  put_uint16 u,
  record {
    encoded = rw (e, wrap-signed_16 u h, wrap-signed_16 u h) refl;
    decoded = rw (get_uint16-put_uint16 u h, e) refl;
    size = refl;
  },
)
encodes fl DataType.uint16 bit (Value.uint16 n) b h = (
  put_uint16 n,
  record {
    encoded = ap (λ (k : ℕ). ok (put_uint16 k)) (omega arith);
    decoded = rw (get_uint16-put_uint16 n h) refl;
    size = refl;
  },
)
encodes fl DataType.int32 bit (Value.int32 z) b (u, h, e) = (
  put_uint32 u,
  record {
    encoded = rw (e, wrap-signed_32 u h, wrap-signed_32 u h) refl;
    decoded = rw (get_uint32-put_uint32 u h, e) refl;
    size = refl;
  },
)
encodes fl DataType.uint32 bit (Value.uint32 n) b h = (
  put_uint32 n,
  record {
    encoded = ap (λ (k : ℕ). ok (put_uint32 k)) (omega arith);
    decoded = rw (get_uint32-put_uint32 n h) refl;
    size = refl;
  },
)
encodes fl DataType.int64 bit (Value.int64 z) b (u, h, e) = (
  put_uint64 u,
  record {
    encoded = rw (e, wrap-signed_64 u h) refl;
    decoded = rw (get_uint64-put_uint64 u h, e) refl;
    size = refl;
  },
)
encodes fl DataType.uint64 bit (Value.uint64 n) b h = (
  put_uint64 n,
  record { encoded = refl; decoded = rw (get_uint64-put_uint64 n h) refl; size = refl },
)
encodes fl DataType.float32 bit (Value.float32 x) b (h, e) = (
  put_uint32 x,
  record { encoded = rw e refl; decoded = rw (get_uint32-put_uint32 x h) refl; size = refl },
)
encodes fl DataType.float64 bit (Value.float64 x) b h = (
  put_uint64 x,
  record { encoded = refl; decoded = rw (get_uint64-put_uint64 x h) refl; size = refl },
)
encodes fl _ bit _ b h = absurd h

byte_count-pos : (dt : DataType) → 0 < get_byte_count dt
unfolding get_byte_count
byte_count-pos DataType.unset = omega arith
byte_count-pos _ = omega arith

parse_nonempty :
    (xs : List ℕ) (t : Tag) (bit : ℕ)
    → 0 < length xs
    → parse_value xs t bit ≡ decode xs bit t.data_type
unfolding parse_value
parse_nonempty [] t bit h = absurd (ground (arith, h))
parse_nonempty (x ∷ xs) t bit h = refl

-- A value that fits the type of an unscaled S7 tag is written as just the bytes that are read for
-- this type, and parsing them gives the value back, at a bit offset below 8.
pub parse_value-value_to_bytes_s7 :
    (fl : Floats) (t : Tag) (bit : ℕ) (v : Value)
    → is_unscaled t ≡ true
    → bit < 8
    → InRange fl t.data_type v
    → (bs : List ℕ) × (value_to_bytes fl v t bit ≡ ok bs)
      × (length bs ≡ get_byte_count t.data_type)
      × (parse_value bs t bit ≡ ok v)
unfolding value_to_bytes reverse_scaling
parse_value-value_to_bytes_s7 fl t bit v unscaled b fits =
    let (xs, e) = encodes fl t.data_type bit v b fits in
    (
      xs,
      rw unscaled e.encoded,
      e.size,
      parse_nonempty xs t bit (rw e.size (byte_count-pos t.data_type)) ∙ e.decoded,
    )
