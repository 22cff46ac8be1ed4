-- ===== src/Modbus/Convert/Total.antt =====
-- The slices that parseValue indexes, and how long they are.
use protocol_gateway.Prelude.{
  ℕ, ◌*◌, ◌≤◌, ◌≡◌, ◌≢◌, refl, Option, none, some, List, [], ◌∷◌, length, take, length-take, ltb,
  inl, inr, Bool-cases, arith,
}
use protocol_gateway.Domain.Errors.{Result, ok, panic}
use protocol_gateway.Domain.Tag.{Tag, DataType, expected_register_count}
use protocol_gateway.Modbus.Bytes.{
  get_uint16, get_uint32, get_uint64, reorder_bytes, length-reorder_bytes,
}
use protocol_gateway.Modbus.Convert.{
  parse_register, parse_value, is_bit_register, decode, decode_bool,
}

abbrev IsSafe {ℓ} : {A : Type ℓ} → Result A → Type ℓ
IsSafe r = r ≢ panic

get_uint16-IsSafe : (xs : List ℕ) → 2 ≤ length xs → (v : ℕ) × (get_uint16 xs ≡ ok v)
unfolding get_uint16
get_uint16-IsSafe (a ∷ b ∷ r) h = (_, refl)
get_uint16-IsSafe [] h = absurd (omega arith)
get_uint16-IsSafe _ h = absurd (omega arith)

get_uint32-IsSafe : (xs : List ℕ) → 4 ≤ length xs → (v : ℕ) × (get_uint32 xs ≡ ok v)
unfolding get_uint32
get_uint32-IsSafe (a ∷ b ∷ c ∷ d ∷ r) h = (_, refl)
get_uint32-IsSafe _ h = absurd (omega arith)

get_uint64-IsSafe : (xs : List ℕ) → 8 ≤ length xs → (v : ℕ) × (get_uint64 xs ≡ ok v)
unfolding get_uint64
get_uint64-IsSafe (a ∷ b ∷ c ∷ d ∷ e ∷ f ∷ g ∷ h ∷ r) le = (_, refl)
get_uint64-IsSafe _ h = absurd (omega arith)

decode_bool-IsSafe : (xs : List ℕ) (bit : Option ℕ) → 2 ≤ length xs → IsSafe (decode_bool xs bit)
unfolding decode_bool
decode_bool-IsSafe xs (some k) h = rw (get_uint16-IsSafe xs h).1 (λ e. cc)
decode_bool-IsSafe (a ∷ b ∷ r) none h = λ e. cc
decode_bool-IsSafe _ none h = absurd (omega arith)

decode-IsSafe :
    (xs : List ℕ) (bit : Option ℕ) (dt : DataType)
    → expected_register_count dt * 2 ≤ length xs
    → IsSafe (decode xs bit dt)
unfolding decode expected_register_count
decode-IsSafe xs bit DataType.bool h = decode_bool-IsSafe xs bit h
decode-IsSafe xs bit DataType.int16 h = rw (get_uint16-IsSafe xs h).1 (λ e. cc)
decode-IsSafe xs bit DataType.uint16 h = rw (get_uint16-IsSafe xs h).1 (λ e. cc)
decode-IsSafe xs bit DataType.int32 h = rw (get_uint32-IsSafe xs h).1 (λ e. cc)
decode-IsSafe xs bit DataType.uint32 h = rw (get_uint32-IsSafe xs h).1 (λ e. cc)
decode-IsSafe xs bit DataType.float32 h = rw (get_uint32-IsSafe xs h).1 (λ e. cc)
decode-IsSafe xs bit DataType.int64 h = rw (get_uint64-IsSafe xs h).1 (λ e. cc)
decode-IsSafe xs bit DataType.uint64 h = rw (get_uint64-IsSafe xs h).1 (λ e. cc)
decode-IsSafe xs bit DataType.float64 h = rw (get_uint64-IsSafe xs h).1 (λ e. cc)
decode-IsSafe xs bit _ h = λ e. cc

parse_register-IsSafe :
    (xs : List ℕ) (t : Tag)
    → expected_register_count t.data_type ≤ t.register_count
    → IsSafe (parse_register xs t).0
unfolding parse_register
parse_register-IsSafe xs t h = elim (Bool-cases (ltb (length xs) (t.register_count * 2))) [
  | inl e ↦ rw e (λ k. cc)
  | inr e ↦ rw e (
      decode-IsSafe (reorder_bytes (take (t.register_count * 2) xs) t.byte_order) t.bit_position
        t.data_type
        (ground (
          arith,
          length-reorder_bytes (take (t.register_count * 2) xs) t.byte_order,
          length-take (t.register_count * 2) xs,
        )))
]

-- A tag with as many registers as its type needs is parsed from any bytes without running out of
-- the slice: the result is a value or an error.
pub parse_value-total :
    (xs : List ℕ) (t : Tag)
    → expected_register_count t.data_type ≤ t.register_count
    → (parse_value xs t).0 ≢ panic
unfolding parse_value
parse_value-total [] t h = λ e. cc
parse_value-total (x ∷ xs) t h = elim (Bool-cases (is_bit_register t.register_type)) [
  | inl e ↦ rw e (λ k. cc)
  | inr e ↦ rw e (parse_register-IsSafe (x ∷ xs) t h)
]
