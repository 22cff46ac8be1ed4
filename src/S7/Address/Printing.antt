-- ===== src/S7/Address/Printing.antt =====
-- S7 addresses as they are written, for internal/adapter/s7/client.go.
use protocol_gateway.Prelude.{
  ℕ, ◌+◌, ◌^◌, ◌<◌, ◌≡◌, refl, true, false, List, [], ◌∷◌, ◌++◌, map, Option, none, some, arith,
  All, All-append, All-map_impl,
}
use protocol_gateway.Domain.Tag.{S7Area}
use protocol_gateway.Service.Topic.{trim, trim_left, trim_right, is_space}
use protocol_gateway.S7.Address.{upper, is_digit, match_address, parse_symbolic_address}
use protocol_gateway.S7.Address.Decimal.{show, Digits-show}

-- The letter of the size of what is read: none is a bit.
pub data Size : Type 0 where
  byte word double : Size

abbrev pub letter : Size → ℕ
letter byte = 0x42
letter word = 0x57
letter double = 0x44

abbrev pub size_in_block : Option Size → ℕ
size_in_block none = 0x58
size_in_block (some s) = letter s

abbrev pub size_in_area : Option Size → List ℕ → List ℕ
size_in_area none rest = rest
size_in_area (some s) rest = letter s ∷ rest

-- The offset and the bit.
abbrev pub show_offset : ℕ → ℕ → List ℕ
show_offset offset bit = show offset ++ 0x2e ∷ (bit + 0x30) ∷ []

-- An address as it is written: `DB1.DBX4.0`, `MW2.0`, `T3`.
abbrev pub print : Option Size → S7Area → ℕ → ℕ → ℕ → List ℕ
print size S7Area.db db offset bit =
    0x44 ∷ 0x42 ∷ (show db ++ 0x2e ∷ 0x44 ∷ 0x42 ∷ size_in_block size ∷ show_offset offset bit)
print size S7Area.merker db offset bit = 0x4d ∷ size_in_area size (show_offset offset bit)
print size S7Area.input db offset bit = 0x49 ∷ size_in_area size (show_offset offset bit)
print size S7Area.output db offset bit = 0x51 ∷ size_in_area size (show_offset offset bit)
print size S7Area.timer db offset bit = 0x54 ∷ show offset
print size S7Area.counter db offset bit = 0x43 ∷ show offset
print size (S7Area.other s) db offset bit = []

-- The locations that an address can stand for.
abbrev pub Addressable : S7Area → ℕ → ℕ → Type 0
Addressable S7Area.db db bit = (db < 2 ^ 63) × (bit < 8)
Addressable S7Area.merker db bit = (db ≡ 0) × (bit < 8)
Addressable S7Area.input db bit = (db ≡ 0) × (bit < 8)
Addressable S7Area.output db bit = (db ≡ 0) × (bit < 8)
Addressable S7Area.timer db bit = (db ≡ 0) × (bit ≡ 0)
Addressable S7Area.counter db bit = (db ≡ 0) × (bit ≡ 0)
Addressable (S7Area.other s) db bit = true ≡ false

-- Characters that neither trimming nor upper case changes.
abbrev pub Plain : ℕ → Type 0
Plain c = (is_space c ≡ false) × (upper c ≡ c)

digit-Plain : (c : ℕ) → is_digit c ≡ true → Plain c
digit-Plain c h = (ground arith, ground arith)

show-Plain : (n : ℕ) → All Plain (show n)
show-Plain n = All-map_impl (λ c. is_digit c ≡ true) Plain (show n) digit-Plain (Digits-show n)

pub bit-digit : (bit : ℕ) → bit < 8 → is_digit (bit + 0x30) ≡ true
bit-digit bit h = ground arith

show_offset-Plain : (offset bit : ℕ) → bit < 8 → All Plain (show_offset offset bit)
show_offset-Plain offset bit h =
    All-append Plain (show offset) _ (show-Plain offset)
      ((refl, refl), (digit-Plain (bit + 0x30) (bit-digit bit h), tt))

trim_left-Plain : (cs : List ℕ) → All Plain cs → trim_left is_space cs ≡ cs
unfolding trim_left
trim_left-Plain [] h = refl
trim_left-Plain (c ∷ cs) ((p, u), h) = rw p refl

trim_right-Plain : (cs : List ℕ) → All Plain cs → trim_right is_space cs ≡ cs
unfolding trim_right
trim_right-Plain [] h = refl
trim_right-Plain (c ∷ []) ((p, u), h) = rw p refl
trim_right-Plain (c ∷ d ∷ cs) (p, h) = rw (trim_right-Plain (d ∷ cs) h) refl

upper-Plain : (cs : List ℕ) → All Plain cs → map upper cs ≡ cs
upper-Plain [] h = refl
upper-Plain (c ∷ cs) ((p, u), h) = rw (u, upper-Plain cs h) refl

pub parse-Plain : (cs : List ℕ) → All Plain cs → parse_symbolic_address cs ≡ match_address cs
unfolding parse_symbolic_address trim
parse-Plain cs h = rw (trim_left-Plain cs h, trim_right-Plain cs h, upper-Plain cs h) refl

size-Plain : (size : Option Size) (cs : List ℕ) → All Plain cs → All Plain (size_in_area size cs)
size-Plain none cs h = h
size-Plain (some byte) cs h = ((refl, refl), h)
size-Plain (some word) cs h = ((refl, refl), h)
size-Plain (some double) cs h = ((refl, refl), h)

pub print-Plain :
    (size : Option Size) (a : S7Area) (db offset bit : ℕ)
    → Addressable a db bit
    → All Plain (print size a db offset bit)
print-Plain none S7Area.db db offset bit (d, h) = (
  (refl, refl),
  (
    (refl, refl),
    All-append Plain (show db) _ (show-Plain db) (
      (refl, refl),
      ((refl, refl), ((refl, refl), ((refl, refl), show_offset-Plain offset bit h))),
    ),
  ),
)
print-Plain (some s) S7Area.db db offset bit (d, h) = (
  (refl, refl),
  (
    (refl, refl),
    All-append Plain (show db) _ (show-Plain db) (
      (refl, refl),
      (
        (refl, refl),
        (
          (refl, refl),
          size-Plain (some s) (show_offset offset bit) (show_offset-Plain offset bit h),
        ),
      ),
    ),
  ),
)
print-Plain size S7Area.merker db offset bit (d, h) =
    ((refl, refl), size-Plain size (show_offset offset bit) (show_offset-Plain offset bit h))
print-Plain size S7Area.input db offset bit (d, h) =
    ((refl, refl), size-Plain size (show_offset offset bit) (show_offset-Plain offset bit h))
print-Plain size S7Area.output db offset bit (d, h) =
    ((refl, refl), size-Plain size (show_offset offset bit) (show_offset-Plain offset bit h))
print-Plain size S7Area.timer db offset bit h = ((refl, refl), show-Plain offset)
print-Plain size S7Area.counter db offset bit h = ((refl, refl), show-Plain offset)
print-Plain size (S7Area.other s) db offset bit h = tt
