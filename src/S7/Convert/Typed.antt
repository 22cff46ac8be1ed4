-- ===== src/S7/Convert/Typed.antt =====
-- The values that parseValue of internal/adapter/s7/conversion.go makes.
use protocol_gateway.Prelude.{
  ℕ, ◌+◌, ◌*◌, ◌^◌, ◌<◌, ◌≤◌, ◌≡◌, refl, List, [], ◌∷◌, length, ltb, arith, All, Bool-cases, inl,
  inr,
}
use protocol_gateway.Prelude.Int.{signed}
use protocol_gateway.Domain.Errors.{Result, ok, err, panic}
use protocol_gateway.Domain.Tag.{Tag, DataType}
use protocol_gateway.Domain.Value.{Value}
use protocol_gateway.Modbus.Bytes.{get_uint16, get_uint32, get_uint64}
use protocol_gateway.S7.Convert.{sized, decode, word_of, double_of, quad_of, parse_value}

-- The values of a data type; a signed number comes from a word of its width.
abbrev pub HasType : DataType → Value → Type 0
HasType DataType.bool (Value.bool b) = Unit
HasType DataType.int16 (Value.int16 z) = (u : ℕ) × (u < 2 ^ 16) × (z ≡ signed 16 u)
HasType DataType.uint16 (Value.uint16 n) = n < 2 ^ 16
HasType DataType.int32 (Value.int32 z) = (u : ℕ) × (u < 2 ^ 32) × (z ≡ signed 32 u)
HasType DataType.uint32 (Value.uint32 n) = n < 2 ^ 32
HasType DataType.int64 (Value.int64 z) = (u : ℕ) × (u < 2 ^ 64) × (z ≡ signed 64 u)
HasType DataType.uint64 (Value.uint64 n) = n < 2 ^ 64
HasType DataType.float32 (Value.float32 b) = b < 2 ^ 32
HasType DataType.float64 (Value.float64 b) = b < 2 ^ 64
HasType _ _ = ⊥

-- What a result may be: a value of the type, or an error; and for enough bytes of a type that is
-- known, a value.
abbrev pub Answers : DataType → Result Value → Type 0
Answers dt (ok v) = HasType dt v
Answers dt (err e) = Unit
Answers dt panic = ⊥

abbrev Bytes : List ℕ → Type 0
Bytes = All (λ b. b < 256)

word : (xs : List ℕ) → Bytes xs → 2 ≤ length xs → (v : ℕ) × (v < 2 ^ 16) × (get_uint16 xs ≡ ok v)
unfolding get_uint16
word [] h n = absurd (ground (arith, n))
word (a ∷ []) h n = absurd (ground (arith, n))
word (a ∷ b ∷ r) (ha, (hb, h)) n = (a * 2 ^ 8 + b, omega arith, refl)

double : (xs : List ℕ) → Bytes xs → 4 ≤ length xs → (v : ℕ) × (v < 2 ^ 32) × (get_uint32 xs ≡ ok v)
unfolding get_uint32
double [] h n = absurd (ground (arith, n))
double (a ∷ []) h n = absurd (ground (arith, n))
double (a ∷ b ∷ []) h n = absurd (ground (arith, n))
double (a ∷ b ∷ c ∷ []) h n = absurd (ground (arith, n))
double (a ∷ b ∷ c ∷ d ∷ r) (ha, (hb, (hc, (hd, h)))) n = (_, omega arith, refl)

quad : (xs : List ℕ) → Bytes xs → 8 ≤ length xs → (v : ℕ) × (v < 2 ^ 64) × (get_uint64 xs ≡ ok v)
unfolding get_uint64
quad (a ∷ b ∷ c ∷ d ∷ e ∷ f ∷ g ∷ i ∷ r) (ha, (hb, (hc, (hd, (he, (hf, (hg, (hi, h)))))))) n =
    (_, omega arith, refl)
quad [] h n = absurd (ground (arith, n))
quad (a ∷ []) h n = absurd (ground (arith, n))
quad (a ∷ b ∷ []) h n = absurd (ground (arith, n))
quad (a ∷ b ∷ c ∷ []) h n = absurd (ground (arith, n))
quad (a ∷ b ∷ c ∷ d ∷ []) h n = absurd (ground (arith, n))
quad (a ∷ b ∷ c ∷ d ∷ e ∷ []) h n = absurd (ground (arith, n))
quad (a ∷ b ∷ c ∷ d ∷ e ∷ f ∷ []) h n = absurd (ground (arith, n))
quad (a ∷ b ∷ c ∷ d ∷ e ∷ f ∷ g ∷ []) h n = absurd (ground (arith, n))

-- A test of the length, then the reading.
sized-Answers :
    (dt : DataType) (n : ℕ) (xs : List ℕ) (read : List ℕ → Result Value)
    → (n ≤ length xs → Answers dt (read xs))
    → Answers dt (sized n xs read)
unfolding sized
sized-Answers dt n xs read h = elim (Bool-cases (ltb (length xs) n)) [
  | inl short ↦ rw short tt
  | inr enough ↦ rw enough (h (ground arith))
]

module _ (dt : DataType) (make : ℕ → Value) (xs : List ℕ) (h : Bytes xs) where
  word-Answers :
      ((v : ℕ) → v < 2 ^ 16 → HasType dt (make v)) → Answers dt (sized 2 xs (word_of make))
  unfolding word_of
  word-Answers typed =
      sized-Answers dt 2 xs (word_of make) (λ n. let (v, b, e) = word xs h n in rw e (typed v b))

  double-Answers :
      ((v : ℕ) → v < 2 ^ 32 → HasType dt (make v)) → Answers dt (sized 4 xs (double_of make))
  unfolding double_of
  double-Answers typed =
      sized-Answers dt 4 xs (double_of make)
        (λ n. let (v, b, e) = double xs h n in rw e (typed v b))

  quad-Answers :
      ((v : ℕ) → v < 2 ^ 64 → HasType dt (make v)) → Answers dt (sized 8 xs (quad_of make))
  unfolding quad_of
  quad-Answers typed =
      sized-Answers dt 8 xs (quad_of make) (λ n. let (v, b, e) = quad xs h n in rw e (typed v b))

decode-Answers : (xs : List ℕ) (bit : ℕ) (dt : DataType) → Bytes xs → Answers dt (decode xs bit dt)
unfolding decode
decode-Answers [] bit DataType.bool h = tt
decode-Answers (x ∷ xs) bit DataType.bool h = tt
decode-Answers xs bit DataType.int16 h =
    word-Answers DataType.int16 (λ v. Value.int16 (signed 16 v)) xs h (λ v b. (v, b, refl))
decode-Answers xs bit DataType.uint16 h = word-Answers DataType.uint16 Value.uint16 xs h (λ v b. b)
decode-Answers xs bit DataType.int32 h =
    double-Answers DataType.int32 (λ v. Value.int32 (signed 32 v)) xs h (λ v b. (v, b, refl))
decode-Answers xs bit DataType.uint32 h =
    double-Answers DataType.uint32 Value.uint32 xs h (λ v b. b)
decode-Answers xs bit DataType.int64 h =
    quad-Answers DataType.int64 (λ v. Value.int64 (signed 64 v)) xs h (λ v b. (v, b, refl))
decode-Answers xs bit DataType.uint64 h = quad-Answers DataType.uint64 Value.uint64 xs h (λ v b. b)
decode-Answers xs bit DataType.float32 h =
    double-Answers DataType.float32 Value.float32 xs h (λ v b. b)
decode-Answers xs bit DataType.float64 h =
    quad-Answers DataType.float64 Value.float64 xs h (λ v b. b)
decode-Answers xs bit _ h = tt

-- Of bytes, whatever their number, parseValue of S7 makes a value of the tag's data type within the
-- range of that type, or an error; it never reads past the end.
pub parse_value-Answers :
    (xs : List ℕ) (t : Tag) (bit : ℕ) → Bytes xs → Answers t.data_type (parse_value xs t bit)
unfolding parse_value
parse_value-Answers [] t bit h = tt
parse_value-Answers (x ∷ xs) t bit h = decode-Answers (x ∷ xs) bit t.data_type h
