-- ===== src/S7/Convert/Total.antt =====
-- That parseValue and valueToBytes of internal/adapter/s7/conversion.go never panic.
use protocol_gateway.Prelude.{
  Option, none, some, ℕ, ◌≤◌, List, [], ◌∷◌, length, ltb, arith, either_branch,
}
use protocol_gateway.Prelude.Int.{signed}
use protocol_gateway.Domain.Errors.{Result, ok, err, panic}
use protocol_gateway.Domain.Tag.{Tag, DataType}
use protocol_gateway.Domain.Value.{Value, to_bool, to_int64, to_uint64, to_float64}
use protocol_gateway.Modbus.Bytes.{get_uint16, get_uint32, get_uint64}
use protocol_gateway.Domain.Float.{Floats}
use protocol_gateway.S7.Convert.{
  or_invalid, encode, value_to_bytes, reverse_scaling, sized, decode, parse_value, word_of,
  double_of, quad_of,
}

abbrev pub NoPanic : {A : Type 0} → Result A → Type 0
NoPanic (ok v) = Unit
NoPanic (err e) = Unit
NoPanic panic = ⊥

sized-NoPanic :
    (n : ℕ) (xs : List ℕ) (read : List ℕ → Result Value)
    → (n ≤ length xs → NoPanic (read xs))
    → NoPanic (sized n xs read)
unfolding sized
sized-NoPanic n xs read h =
    either_branch NoPanic (ltb (length xs) n) (λ short. tt) (λ enough. h (ground arith))

word-NoPanic : (make : ℕ → Value) (xs : List ℕ) → 2 ≤ length xs → NoPanic (word_of make xs)
unfolding word_of get_uint16
word-NoPanic make (a ∷ b ∷ r) n = tt
word-NoPanic make [] n = absurd (ground (arith, n))
word-NoPanic make (a ∷ []) n = absurd (ground (arith, n))

double-NoPanic : (make : ℕ → Value) (xs : List ℕ) → 4 ≤ length xs → NoPanic (double_of make xs)
unfolding double_of get_uint32
double-NoPanic make (a ∷ b ∷ c ∷ d ∷ r) n = tt
double-NoPanic make [] n = absurd (ground (arith, n))
double-NoPanic make (a ∷ []) n = absurd (ground (arith, n))
double-NoPanic make (a ∷ b ∷ []) n = absurd (ground (arith, n))
double-NoPanic make (a ∷ b ∷ c ∷ []) n = absurd (ground (arith, n))

quad-NoPanic : (make : ℕ → Value) (xs : List ℕ) → 8 ≤ length xs → NoPanic (quad_of make xs)
unfolding quad_of get_uint64
quad-NoPanic make (a ∷ b ∷ c ∷ d ∷ e ∷ f ∷ g ∷ h ∷ r) n = tt
quad-NoPanic make [] n = absurd (ground (arith, n))
quad-NoPanic make (a ∷ []) n = absurd (ground (arith, n))
quad-NoPanic make (a ∷ b ∷ []) n = absurd (ground (arith, n))
quad-NoPanic make (a ∷ b ∷ c ∷ []) n = absurd (ground (arith, n))
quad-NoPanic make (a ∷ b ∷ c ∷ d ∷ []) n = absurd (ground (arith, n))
quad-NoPanic make (a ∷ b ∷ c ∷ d ∷ e ∷ []) n = absurd (ground (arith, n))
quad-NoPanic make (a ∷ b ∷ c ∷ d ∷ e ∷ f ∷ []) n = absurd (ground (arith, n))
quad-NoPanic make (a ∷ b ∷ c ∷ d ∷ e ∷ f ∷ g ∷ []) n = absurd (ground (arith, n))

-- The sizes of the types.
module _ (make : ℕ → Value) (xs : List ℕ) where
  of_word : NoPanic (sized 2 xs (word_of make))
  of_word = sized-NoPanic 2 xs (word_of make) (word-NoPanic make xs)

  of_double : NoPanic (sized 4 xs (double_of make))
  of_double = sized-NoPanic 4 xs (double_of make) (double-NoPanic make xs)

  of_quad : NoPanic (sized 8 xs (quad_of make))
  of_quad = sized-NoPanic 8 xs (quad_of make) (quad-NoPanic make xs)

decode-NoPanic : (xs : List ℕ) (bit : ℕ) (dt : DataType) → NoPanic (decode xs bit dt)
unfolding decode
decode-NoPanic [] bit DataType.bool = tt
decode-NoPanic (x ∷ xs) bit DataType.bool = tt
decode-NoPanic xs bit DataType.int16 = of_word (λ v. Value.int16 (signed 16 v)) xs
decode-NoPanic xs bit DataType.uint16 = of_word Value.uint16 xs
decode-NoPanic xs bit DataType.int32 = of_double (λ v. Value.int32 (signed 32 v)) xs
decode-NoPanic xs bit DataType.uint32 = of_double Value.uint32 xs
decode-NoPanic xs bit DataType.int64 = of_quad (λ v. Value.int64 (signed 64 v)) xs
decode-NoPanic xs bit DataType.uint64 = of_quad Value.uint64 xs
decode-NoPanic xs bit DataType.float32 = of_double Value.float32 xs
decode-NoPanic xs bit DataType.float64 = of_quad Value.float64 xs
decode-NoPanic xs bit _ = tt

pub parse_value-NoPanic : (xs : List ℕ) (t : Tag) (bit : ℕ) → NoPanic (parse_value xs t bit)
unfolding parse_value
parse_value-NoPanic [] t bit = tt
parse_value-NoPanic (x ∷ xs) t bit = decode-NoPanic (x ∷ xs) bit t.data_type

module _ (fl : Floats) where
  or_invalid-NoPanic :
      {A : Type 0} (o : Option A) (put : A → List ℕ) → NoPanic (or_invalid fl o put)
  unfolding or_invalid
  or_invalid-NoPanic none put = tt
  or_invalid-NoPanic (some a) put = tt

  encode-NoPanic : (v : Value) (bit : ℕ) (dt : DataType) → NoPanic (encode fl v bit dt)
  unfolding encode
  encode-NoPanic v bit DataType.bool = or_invalid-NoPanic (to_bool v) _
  encode-NoPanic v bit DataType.int16 = or_invalid-NoPanic (to_int64 fl v) _
  encode-NoPanic v bit DataType.uint16 = or_invalid-NoPanic (to_int64 fl v) _
  encode-NoPanic v bit DataType.int32 = or_invalid-NoPanic (to_int64 fl v) _
  encode-NoPanic v bit DataType.uint32 = or_invalid-NoPanic (to_int64 fl v) _
  encode-NoPanic v bit DataType.int64 = or_invalid-NoPanic (to_int64 fl v) _
  encode-NoPanic v bit DataType.uint64 = or_invalid-NoPanic (to_uint64 fl v) _
  encode-NoPanic v bit DataType.float32 = or_invalid-NoPanic (to_float64 fl v) _
  encode-NoPanic v bit DataType.float64 = or_invalid-NoPanic (to_float64 fl v) _
  encode-NoPanic v bit _ = tt

  pub value_to_bytes-NoPanic : (v : Value) (t : Tag) (bit : ℕ) → NoPanic (value_to_bytes fl v t bit)
  unfolding value_to_bytes
  value_to_bytes-NoPanic v t bit = encode-NoPanic (reverse_scaling fl v t) bit t.data_type
