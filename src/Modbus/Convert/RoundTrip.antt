-- ===== src/Modbus/Convert/RoundTrip.antt =====
-- Writing a value to holding registers and reading it back.
use protocol_gateway.Prelude.{
  ℕ, ◌*◌, ◌^◌, ◌<◌, ◌≡◌, refl, ap, ◌∙◌, true, false, none, List, [], ◌∷◌, length, take_all, arith,
}
use protocol_gateway.Prelude.Int.{signed, wrap-signed_16, wrap-signed_32, wrap-signed_64}
use protocol_gateway.Domain.Errors.{ok}
use protocol_gateway.Domain.Float.{Floats}
use protocol_gateway.Domain.Tag.{
  Tag, DataType, ByteOrder, expected_register_count, expected_register_count-pos,
}
use protocol_gateway.Domain.Value.{Value, to_bool, to_int64, to_uint64, to_float64}
use protocol_gateway.Modbus.Bytes.{
  get_uint16, put_uint16, put_uint32, put_uint64, reorder_bytes, length-reorder_bytes, reorder_word,
  reorder_double, reorder_quad, get_uint16-put_uint16, get_uint32-put_uint32, get_uint64-put_uint64,
}
use protocol_gateway.Modbus.Convert.{
  is_bit_register, is_unscaled, decode, encode, parse_value, reverse_scaling, value_to_bytes,
}

-- The values that a data type can hold. A float32 is one that survives the detour over float64.
abbrev pub InRange : Floats → DataType → Value → Type 0
InRange fl DataType.bool (Value.bool b) = Unit
InRange fl DataType.int16 (Value.int16 z) = (u : ℕ) × (u < 2 ^ 16) × (z ≡ signed 16 u)
InRange fl DataType.uint16 (Value.uint16 n) = n < 2 ^ 16
InRange fl DataType.int32 (Value.int32 z) = (u : ℕ) × (u < 2 ^ 32) × (z ≡ signed 32 u)
InRange fl DataType.uint32 (Value.uint32 n) = n < 2 ^ 32
InRange fl DataType.int64 (Value.int64 z) = (u : ℕ) × (u < 2 ^ 64) × (z ≡ signed 64 u)
InRange fl DataType.uint64 (Value.uint64 n) = n < 2 ^ 64
InRange fl DataType.float32 (Value.float32 b) = (b < 2 ^ 32) × (fl.narrow (fl.widen b) ≡ b)
InRange fl DataType.float64 (Value.float64 b) = b < 2 ^ 64
InRange fl _ _ = ⊥

-- Bytes `xs` that stand for `v`, before the byte order is applied.
record Encodes (fl : Floats) (dt : DataType) (v : Value) (xs : List ℕ) : Type 0 where
  encoded : encode fl v dt ≡ ok xs
  decoded : decode xs none dt ≡ ok v
  size : length xs ≡ expected_register_count dt * 2
  twice : (o : ByteOrder) → reorder_bytes (reorder_bytes xs o) o ≡ xs

module _ (fl : Floats) (dt : DataType) (v : Value) where
  of_word :
      (w : ℕ)
      → encode fl v dt ≡ ok (put_uint16 w)
      → decode (put_uint16 w) none dt ≡ ok v
      → expected_register_count dt ≡ 1
      → (xs : List ℕ) × Encodes fl dt v xs
  unfolding put_uint16
  of_word w e d n = (
    put_uint16 w,
    record { encoded = e; decoded = d; size = omega (arith, n); twice = λ o. reorder_word o _ _ },
  )

  of_double :
      (w : ℕ)
      → encode fl v dt ≡ ok (put_uint32 w)
      → decode (put_uint32 w) none dt ≡ ok v
      → expected_register_count dt ≡ 2
      → (xs : List ℕ) × Encodes fl dt v xs
  unfolding put_uint32
  of_double w e d n = (
    put_uint32 w,
    record {
      encoded = e;
      decoded = d;
      size = omega (arith, n);
      twice = λ o. reorder_double o _ _ _ _;
    },
  )

  of_quad :
      (w : ℕ)
      → encode fl v dt ≡ ok (put_uint64 w)
      → decode (put_uint64 w) none dt ≡ ok v
      → expected_register_count dt ≡ 4
      → (xs : List ℕ) × Encodes fl dt v xs
  unfolding put_uint64
  of_quad w e d n = (
    put_uint64 w,
    record {
      encoded = e;
      decoded = d;
      size = omega (arith, n);
      twice = λ o. reorder_quad o _ _ _ _ _ _ _ _;
    },
  )

encodes :
    (fl : Floats) (dt : DataType) (v : Value) → InRange fl dt v → (xs : List ℕ) × Encodes fl dt v xs
unfolding encode decode to_bool to_int64 to_uint64 to_float64 expected_register_count
encodes fl DataType.bool (Value.bool true) h =
    of_word fl _ _ 1 refl (unfold get_uint16 put_uint16 in refl) refl
encodes fl DataType.bool (Value.bool false) h =
    of_word fl _ _ 0 refl (unfold get_uint16 put_uint16 in refl) refl
encodes fl DataType.int16 (Value.int16 z) (u, h, e) =
    of_word fl _ _ u (rw (e, wrap-signed_16 u h, wrap-signed_16 u h))
      (rw (get_uint16-put_uint16 u h, e)) refl
encodes fl DataType.uint16 (Value.uint16 n) h =
    of_word fl _ _ n (ap (λ (k : ℕ). ok (put_uint16 k)) (omega arith))
      (rw (get_uint16-put_uint16 n h)) refl
encodes fl DataType.int32 (Value.int32 z) (u, h, e) =
    of_double fl _ _ u (rw (e, wrap-signed_32 u h, wrap-signed_32 u h))
      (rw (get_uint32-put_uint32 u h, e)) refl
encodes fl DataType.uint32 (Value.uint32 n) h =
    of_double fl _ _ n (ap (λ (k : ℕ). ok (put_uint32 k)) (omega arith))
      (rw (get_uint32-put_uint32 n h)) refl
encodes fl DataType.int64 (Value.int64 z) (u, h, e) =
    of_quad fl _ _ u (rw (e, wrap-signed_64 u h)) (rw (get_uint64-put_uint64 u h, e)) refl
encodes fl DataType.uint64 (Value.uint64 n) h =
    of_quad fl _ _ n refl (rw (get_uint64-put_uint64 n h)) refl
encodes fl DataType.float32 (Value.float32 b) (h, e) =
    of_double fl _ _ b (rw e) (rw (get_uint32-put_uint32 b h)) refl
encodes fl DataType.float64 (Value.float64 b) h =
    of_quad fl _ _ b refl (rw (get_uint64-put_uint64 b h)) refl
encodes fl _ _ h = absurd h

-- Parsing registers that hold reordered bytes decodes the bytes.
parse_whole :
    (ys : List ℕ) (t : Tag)
    → is_bit_register t.register_type ≡ false
    → length ys ≡ t.register_count * 2
    → 0 < length ys
    → (parse_value ys t).0 ≡ decode (reorder_bytes ys t.byte_order) t.bit_position t.data_type
unfolding parse_value
parse_whole [] t b e h = elim h [ ]
parse_whole (y ∷ ys) t b e h = rw b (ground (arith, take_all (y ∷ ys)))

-- Writing a value that fits the type of an unscaled holding register tag, which spans just the
-- registers of its type and takes no single bit, succeeds; and the bytes written, read back
-- through the same tag, give the value, in every byte order.
pub parse_value-value_to_bytes :
    (fl : Floats) (t : Tag) (v : Value)
    → is_bit_register t.register_type ≡ false
    → is_unscaled t ≡ true
    → t.register_count ≡ expected_register_count t.data_type
    → t.bit_position ≡ none
    → InRange fl t.data_type v
    → (bs : List ℕ) × (value_to_bytes fl v t ≡ ok bs) × ((parse_value bs t).0 ≡ ok v)
unfolding value_to_bytes reverse_scaling
parse_value-value_to_bytes fl t v reg unscaled count bit fits =
    let (xs, e) = encodes fl t.data_type v fits in
    let ys = reorder_bytes xs t.byte_order in
    let same = length-reorder_bytes xs t.byte_order in
    let read =
      parse_whole ys t reg (omega (arith, same, e.size, count))
        (omega (arith, same, e.size, expected_register_count-pos t.data_type)) in
    (ys, rw (unscaled, e.encoded), read ∙ (rw (e.twice t.byte_order, bit) e.decoded))
