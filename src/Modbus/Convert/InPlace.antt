-- ===== src/Modbus/Convert/InPlace.antt =====
-- What parseValue does to the slice that it is given.
use protocol_gateway.Prelude.{
  ℕ, ◌+◌, ◌*◌, ◌^◌, ◌≡◌, refl, false, List, [], ◌∷◌, length, take-append-drop, ltb, Bool-cases, inl,
  inr,
}
use protocol_gateway.Domain.Errors.{ok}
use protocol_gateway.Domain.Tag.{Tag, ByteOrder, DataType}
use protocol_gateway.Domain.Value.{Value}
use protocol_gateway.Modbus.Bytes.{get_uint16, reorder_bytes, reorder_big_endian}
use protocol_gateway.Modbus.Convert.{parse_value, parse_register, is_bit_register, decode}

parse_register-big_endian :
    (xs : List ℕ) (t : Tag) → t.byte_order ≡ ByteOrder.big_endian → (parse_register xs t).1 ≡ xs
unfolding parse_register
parse_register-big_endian xs t e = elim (Bool-cases (ltb (length xs) (t.register_count * 2))) [
  | inl h ↦ simp h refl
  | inr h ↦ simp (h, e, reorder_big_endian) (take-append-drop (t.register_count * 2) xs)
]

-- In big endian order the slice stays as it is.
pub parse_value-big_endian :
    (xs : List ℕ) (t : Tag) → t.byte_order ≡ ByteOrder.big_endian → (parse_value xs t).1 ≡ xs
unfolding parse_value
parse_value-big_endian [] t e = refl
parse_value-big_endian (x ∷ xs) t e = elim (Bool-cases (is_bit_register t.register_type)) [
  | inl h ↦ simp h refl
  | inr h ↦ simp h (parse_register-big_endian (x ∷ xs) t e)
]

-- A little endian uint16 register, as the slice gives it and as it leaves the slice.
pub parse_value-little_endian :
    (a b : ℕ) (t : Tag)
    → is_bit_register t.register_type ≡ false
    → t.register_count ≡ 1
    → t.data_type ≡ DataType.uint16
    → t.byte_order ≡ ByteOrder.little_endian
    → parse_value (a ∷ b ∷ []) t ≡ (ok (Value.uint16 (b * 2 ^ 8 + a)), b ∷ a ∷ [])
unfolding parse_value parse_register reorder_bytes decode get_uint16
parse_value-little_endian a b t r n d o = simp (r, n, d, o) refl
