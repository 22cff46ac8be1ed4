-- ===== src/Modbus/Bytes.antt =====
-- Byte order: binary.BigEndian and reorderBytes of internal/adapter/modbus/conversion.go.
use protocol_gateway.Prelude.{
  ℕ, zero, suc, ◌+◌, ◌-◌, ◌*◌, ◌/◌, ◌%◌, ◌^◌, ◌<◌, ◌≡◌, refl, ap, true, false, List, [], ◌∷◌,
  length, set, get_or, length-set, arith, ltb, leb, if◌then◌else◌,
}
use protocol_gateway.Domain.Errors.{Result, ok, panic}
use protocol_gateway.Domain.Tag.{ByteOrder}

-- binary.BigEndian.Uint16, Uint32, Uint64: a shorter slice is an index out of range.
unfoldable pub get_uint16 : List ℕ → Result ℕ
get_uint16 (a ∷ b ∷ r) = ok (a * 2 ^ 8 + b)
get_uint16 _ = panic

unfoldable pub get_uint32 : List ℕ → Result ℕ
get_uint32 (a ∷ b ∷ c ∷ d ∷ r) = ok (a * 2 ^ 24 + b * 2 ^ 16 + c * 2 ^ 8 + d)
get_uint32 _ = panic

unfoldable pub get_uint64 : List ℕ → Result ℕ
get_uint64 (a ∷ b ∷ c ∷ d ∷ e ∷ f ∷ g ∷ h ∷ r) =
    ok (a * 2 ^ 56 + b * 2 ^ 48 + c * 2 ^ 40 + d * 2 ^ 32 + e * 2 ^ 24 + f * 2 ^ 16 + g * 2 ^ 8 + h)
get_uint64 _ = panic

-- The slices that PutUint16, PutUint32 and PutUint64 fill.
unfoldable pub put_uint16 : ℕ → List ℕ
put_uint16 v = (v / 2 ^ 8 % 256) ∷ (v % 256) ∷ []

unfoldable pub put_uint32 : ℕ → List ℕ
put_uint32 v = (v / 2 ^ 24 % 256) ∷ (v / 2 ^ 16 % 256) ∷ (v / 2 ^ 8 % 256) ∷ (v % 256) ∷ []

unfoldable pub put_uint64 : ℕ → List ℕ
put_uint64 v =
    (v / 2 ^ 56 % 256)
    ∷ (v / 2 ^ 48 % 256)
    ∷ (v / 2 ^ 40 % 256)
    ∷ (v / 2 ^ 32 % 256)
    ∷ (v / 2 ^ 24 % 256)
    ∷ (v / 2 ^ 16 % 256)
    ∷ (v / 2 ^ 8 % 256)
    ∷ (v % 256)
    ∷ []

pub get_uint16-put_uint16 : (v : ℕ) → v < 2 ^ 16 → get_uint16 (put_uint16 v) ≡ ok v
unfolding get_uint16 put_uint16
get_uint16-put_uint16 v h = ap ok (omega arith)

pub get_uint32-put_uint32 : (v : ℕ) → v < 2 ^ 32 → get_uint32 (put_uint32 v) ≡ ok v
unfolding get_uint32 put_uint32
get_uint32-put_uint32 v h = ap ok (omega arith)

pub get_uint64-put_uint64 : (v : ℕ) → v < 2 ^ 64 → get_uint64 (put_uint64 v) ≡ ok v
unfolding get_uint64 put_uint64
get_uint64-put_uint64 v h = ap ok (omega arith)

-- data[i], data[j] = data[j], data[i]
swap_at : ℕ → ℕ → List ℕ → List ℕ
swap_at i j xs = set (set xs i (get_or xs j 0)) j (get_or xs i 0)

-- for i < j { swap; i++; j-- }: the length of the slice is fuel enough.
swap_ends : ℕ → ℕ → ℕ → List ℕ → List ℕ
unfolding swap_at
swap_ends zero i j xs = xs
swap_ends (suc f) i j xs = elim (ltb i j) [
  | true ↦ swap_ends f (i + 1) (j - 1) (swap_at i j xs)
  | false ↦ xs
]

swap_pairs : List ℕ → List ℕ
swap_pairs (a ∷ b ∷ r) = b ∷ a ∷ swap_pairs r
swap_pairs r = r

swap_halves : List ℕ → List ℕ
swap_halves (a ∷ b ∷ c ∷ d ∷ r) = c ∷ d ∷ a ∷ b ∷ swap_halves r
swap_halves r = r

reorder_by : ByteOrder → List ℕ → List ℕ
unfolding swap_ends swap_pairs swap_halves
reorder_by ByteOrder.big_endian xs = xs
reorder_by ByteOrder.little_endian xs = swap_ends (length xs) 0 (length xs - 1) xs
reorder_by ByteOrder.mid_big xs = swap_pairs xs
reorder_by ByteOrder.mid_little xs = swap_halves xs
reorder_by _ xs = xs

unfoldable pub reorder_bytes : List ℕ → ByteOrder → List ℕ
unfolding reorder_by
reorder_bytes xs o = if leb (length xs) 1 then xs else reorder_by o xs

-- Reordering keeps the length.
swap_ends-length : (f i j : ℕ) (xs : List ℕ) → length (swap_ends f i j xs) ≡ length xs
unfolding swap_ends
swap_ends-length zero i j xs = refl
swap_ends-length (suc f) i j xs = ground (
  arith,
  swap_ends-length f (i + 1) (j - 1) (swap_at i j xs),
  length-set xs i (get_or xs j 0),
  length-set (set xs i (get_or xs j 0)) j (get_or xs i 0),
)

length-swap_pairs : (xs : List ℕ) → length (swap_pairs xs) ≡ length xs
unfolding swap_pairs
length-swap_pairs (a ∷ b ∷ r) = omega (arith, length-swap_pairs r)
length-swap_pairs _ = refl

length-swap_halves : (xs : List ℕ) → length (swap_halves xs) ≡ length xs
unfolding swap_halves
length-swap_halves (a ∷ b ∷ c ∷ d ∷ r) = omega (arith, length-swap_halves r)
length-swap_halves _ = refl

length-reorder_by : (o : ByteOrder) (xs : List ℕ) → length (reorder_by o xs) ≡ length xs
unfolding reorder_by
length-reorder_by ByteOrder.little_endian xs = swap_ends-length (length xs) 0 (length xs - 1) xs
length-reorder_by ByteOrder.mid_big xs = length-swap_pairs xs
length-reorder_by ByteOrder.mid_little xs = length-swap_halves xs
length-reorder_by _ xs = refl

pub length-reorder_bytes : (xs : List ℕ) (o : ByteOrder) → length (reorder_bytes xs o) ≡ length xs
unfolding reorder_bytes
length-reorder_bytes xs o = ground (arith, length-reorder_by o xs)

-- Each order is its own inverse on a value of 1, 2 or 4 registers.
pub reorder_word :
    (o : ByteOrder) (a b : ℕ) → let xs = a ∷ b ∷ [] in reorder_bytes (reorder_bytes xs o) o ≡ xs
unfolding reorder_bytes
reorder_word ByteOrder.little_endian a b = refl
reorder_word _ a b = refl

pub reorder_double :
    (o : ByteOrder) (a b c d : ℕ)
    → let xs = a ∷ b ∷ c ∷ d ∷ [] in reorder_bytes (reorder_bytes xs o) o ≡ xs
unfolding reorder_bytes
reorder_double ByteOrder.little_endian a b c d = refl
reorder_double _ a b c d = refl

pub reorder_quad :
    (o : ByteOrder) (a b c d e f g h : ℕ)
    → let xs = a ∷ b ∷ c ∷ d ∷ e ∷ f ∷ g ∷ h ∷ [] in reorder_bytes (reorder_bytes xs o) o ≡ xs
unfolding reorder_bytes
reorder_quad ByteOrder.little_endian a b c d e f g h = refl
reorder_quad _ a b c d e f g h = refl

pub reorder_big_endian : (xs : List ℕ) → reorder_bytes xs ByteOrder.big_endian ≡ xs
unfolding reorder_bytes
reorder_big_endian xs = ground arith
