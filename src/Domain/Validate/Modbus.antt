-- ===== src/Domain/Validate/Modbus.antt =====
-- The Modbus case of the validation of a tag.
use protocol_gateway.Prelude.{
  none, some, Option, ap, Bool-cases, ℕ, ◌≡◌, refl, ◌≤◌, ◌≢◌, inl, inr, false, str_eq, some, arith,
  ◌==◌, if◌then◌else◌,
}
use protocol_gateway.Domain.Errors.{ok, ◌>>=◌, bind-ok}
use protocol_gateway.Domain.Float.{one64, is_zero64}
use protocol_gateway.Domain.Tag.{Tag, RegisterType, ByteOrder, Protocol, expected_register_count}
use protocol_gateway.Domain.Validate.{
  validate_for_protocol, validate_modbus, default_scale, is_unset_register, validate_common,
  default_order, validate_specific, bit_position_bad, is_unset_type, Option,
}

-- What each stage says of the tag that it hands on.
common_inv :
    (t u : Tag)
    → validate_common t ≡ ok u
    → (u ≡ t)
      × (str_eq t.id "" ≡ false)
      × (str_eq t.name "" ≡ false)
      × (str_eq t.topic_suffix "" ≡ false)
      × (is_unset_type t.data_type ≡ false)
unfolding validate_common
common_inv t u h = ground arith

common_intro :
    (t : Tag)
    → str_eq t.id "" ≡ false
    → str_eq t.name "" ≡ false
    → str_eq t.topic_suffix "" ≡ false
    → is_unset_type t.data_type ≡ false
    → validate_common t ≡ ok t
unfolding validate_common
common_intro t a b c d = rw (a, b, c, d)

default_order_idem : (o : ByteOrder) → default_order (default_order o) ≡ default_order o
unfolding default_order
default_order_idem ByteOrder.unset = refl
default_order_idem _ = refl

default_order-set : (o : ByteOrder) → default_order o ≢ ByteOrder.unset
unfolding default_order
default_order-set ByteOrder.unset = λ e. cc
default_order-set _ = λ e. cc

abbrev count_or_default : Tag → ℕ
count_or_default t =
    if t.register_count == 0 then expected_register_count t.data_type else t.register_count

modbus_inv :
    (t u : Tag)
    → validate_modbus t ≡ ok u
    → (u
        ≡ record t { register_count = count_or_default t; byte_order = default_order t.byte_order })
      × (expected_register_count t.data_type ≤ count_or_default t)
      × (is_unset_register t.register_type ≡ false)
      × (bit_position_bad t.bit_position ≡ false)
unfolding validate_modbus
modbus_inv t u h = ground arith

scaled : Tag → ℕ
scaled t = if is_zero64 t.scale_factor then one64 else t.scale_factor

default_scale_lem : (t : Tag) → default_scale t ≡ record t { scale_factor = scaled t }
unfolding default_scale scaled
default_scale_lem t = ground arith

scaled-nonzero : (t : Tag) → is_zero64 (scaled t) ≡ false
unfolding scaled
scaled-nonzero t = elim (Bool-cases (is_zero64 t.scale_factor)) [
  | inl e ↦ rw e refl
  | inr e ↦ rw e e
]

modbus_again :
    (t : Tag)
    → is_unset_register t.register_type ≡ false
    → bit_position_bad t.bit_position ≡ false
    → expected_register_count t.data_type ≤ t.register_count
    → default_order t.byte_order ≡ t.byte_order
    → validate_modbus t ≡ ok t
unfolding validate_modbus expected_register_count
modbus_again t a b c d = ground arith

scaled-stable : (t : Tag) → is_zero64 t.scale_factor ≡ false → default_scale t ≡ t
unfolding default_scale
scaled-stable t e = rw e

-- The tag that a Modbus validation hands back.
defaulted : Tag → Tag
unfolding default_order
defaulted t = record t {
  register_count = count_or_default t;
  byte_order = default_order t.byte_order;
  scale_factor = scaled t;
}

modbus_stage :
    (t t' : Tag)
    → (validate_modbus t >>= λ t₂. ok (default_scale t₂)) ≡ ok t'
    → (t' ≡ defaulted t)
      × (expected_register_count t.data_type ≤ count_or_default t)
      × (is_unset_register t.register_type ≡ false)
      × (bit_position_bad t.bit_position ≡ false)
unfolding defaulted scaled default_scale
modbus_stage t t' h =
    let (u, eu, hu) = bind-ok (validate_modbus t) _ h in
    let m = modbus_inv t u eu in (ground arith, m.1, m.2, m.3)

modbus_accepted :
    (t t' : Tag)
    → validate_for_protocol Protocol.modbus_tcp t ≡ ok t'
    → (t' ≡ defaulted t)
      × (expected_register_count t.data_type ≤ count_or_default t)
      × (is_unset_register t.register_type ≡ false)
      × (bit_position_bad t.bit_position ≡ false)
      × (validate_common t ≡ ok t)
unfolding validate_for_protocol validate_specific
modbus_accepted t t' h =
    let (a, ea, ha) = bind-ok (validate_common t) _ h in
    let c = common_inv t a ea in
    let s = modbus_stage t t' (rw c.0 at ha) in (s.0, s.1, s.2, s.3, common_intro t c.1 c.2 c.3 c.4)

abbrev pub InByte : Option ℕ → Type 0
InByte none = Unit
InByte (some b) = b ≤ 7

InByte_lem : (o : Option ℕ) → bit_position_bad o ≡ false → InByte o
unfolding bit_position_bad
InByte_lem none h = tt
InByte_lem (some b) h = ground arith

-- What the Modbus adapter relies on.
pub record IsModbusReady (t : Tag) : Type 0 where
  pub enough_registers : expected_register_count t.data_type ≤ t.register_count
  pub order_set : t.byte_order ≢ ByteOrder.unset
  pub register_set : t.register_type ≢ RegisterType.unset
  pub scale_nonzero : is_zero64 t.scale_factor ≡ false
  pub bit_in_byte : InByte t.bit_position

-- A tag that Modbus validation accepts has as many registers as its type needs, a bit position in
-- a byte, a byte order, a register type and a scale that can be divided by.
pub validate_for_protocol-IsModbusReady :
    (t t' : Tag) → validate_for_protocol Protocol.modbus_tcp t ≡ ok t' → IsModbusReady t'
unfolding defaulted is_unset_register bit_position_bad
validate_for_protocol-IsModbusReady t t' h =
    let s = modbus_accepted t t' h in
    rw s.0 (record {
      enough_registers = s.1;
      order_set = default_order-set t.byte_order;
      register_set = ground arith;
      scale_nonzero = scaled-nonzero t;
      bit_in_byte = InByte_lem t.bit_position s.3;
    })

-- Validating an accepted Modbus tag again accepts it and changes nothing.
pub validate_for_protocol_idem :
    (t t' : Tag)
    → validate_for_protocol Protocol.modbus_tcp t ≡ ok t'
    → validate_for_protocol Protocol.modbus_tcp t' ≡ ok t'
unfolding validate_for_protocol validate_specific defaulted
validate_for_protocol_idem t t' h =
    let s = modbus_accepted t t' h in
    let c = common_inv t t s.4 in
    rw s.0 (
      rw
        (
          common_intro (defaulted t) c.1 c.2 c.3 c.4,
          modbus_again (defaulted t) s.2 s.3 s.1 (default_order_idem t.byte_order),
        )
        (ap ok (scaled-stable (defaulted t) (scaled-nonzero t))))
