-- ===== src/Domain/Validate.antt =====
-- Validation of a tag (internal/domain/tag.go, Validate and ValidateForProtocol). A tag that is
-- accepted comes back with its defaults filled in; one that is refused is left as it was.
pub mod Modbus
use protocol_gateway.Prelude.{
  ap, Bool-cases, ℕ, ◌≡◌, refl, ◌≤◌, ◌≢◌, inl, inr, Bool, true, false, str_eq, Option, none, some,
  arith, ltb, ◌==◌, if◌then◌else◌,
}
use protocol_gateway.Domain.Errors.{
  Result, ok, err, ◌>>=◌, bind-ok, tag_id_required, tag_name_required, topic_suffix_required,
  data_type_required, register_type_required, bit_position_out_of_range,
  register_count_insufficient, opc_node_id_required, s7_address_required, unsupported_protocol,
}
use protocol_gateway.Domain.Float.{one64, is_zero64}
use protocol_gateway.Domain.Tag.{
  Tag, DataType, RegisterType, ByteOrder, Protocol, expected_register_count,
}

unfoldable pub bit_position_bad : Option ℕ → Bool
bit_position_bad none = false
bit_position_bad (some b) = ltb 7 b

unfoldable pub is_unset_register : RegisterType → Bool
is_unset_register RegisterType.unset = true
is_unset_register _ = false

unfoldable pub is_unset_type : DataType → Bool
is_unset_type DataType.unset = true
is_unset_type _ = false

unfoldable pub default_order : ByteOrder → ByteOrder
default_order ByteOrder.unset = ByteOrder.big_endian
default_order ByteOrder.big_endian = ByteOrder.big_endian
default_order ByteOrder.little_endian = ByteOrder.little_endian
default_order ByteOrder.mid_big = ByteOrder.mid_big
default_order ByteOrder.mid_little = ByteOrder.mid_little
default_order (ByteOrder.other s) = ByteOrder.other s

-- The checks that every protocol shares.
unfoldable pub validate_common : Tag → Result Tag
unfolding is_unset_type
validate_common t =
    if str_eq t.id ""
    then err tag_id_required
    else if str_eq t.name ""
    then err tag_name_required
    else if str_eq t.topic_suffix ""
    then err topic_suffix_required
    else if is_unset_type t.data_type
    then err data_type_required
    else ok t

-- The Modbus case of the switch.
unfoldable pub validate_modbus : Tag → Result Tag
unfolding bit_position_bad is_unset_register default_order
validate_modbus t =
    if is_unset_register t.register_type
    then err register_type_required
    else if bit_position_bad t.bit_position
    then err bit_position_out_of_range
    else if t.register_count == 0
    then ok (record t {
      register_count = expected_register_count t.data_type;
      byte_order = default_order t.byte_order;
    })
    else if ltb t.register_count (expected_register_count t.data_type)
    then err register_count_insufficient
    else ok (record t { byte_order = default_order t.byte_order })

-- The switch on the protocol.
unfoldable pub validate_specific : Protocol → Tag → Result Tag
validate_specific Protocol.modbus_tcp t = validate_modbus t
validate_specific Protocol.modbus_rtu t = validate_modbus t
validate_specific Protocol.opcua t =
    if str_eq t.opc_node_id "" then err opc_node_id_required else ok t
validate_specific Protocol.s7 t = if str_eq t.s7_address "" then err s7_address_required else ok t
validate_specific Protocol.mqtt t = ok t
validate_specific _ t = err unsupported_protocol

unfoldable pub default_scale : Tag → Tag
default_scale t = if is_zero64 t.scale_factor then record t { scale_factor = one64 } else t

unfoldable pub validate_for_protocol : Protocol → Tag → Result Tag
validate_for_protocol p t = do
  t₁ ← validate_common t
  t₂ ← validate_specific p t₁
  ok (default_scale t₂)

-- Validate: the protocol is inferred from the protocol-specific fields.
pub validate : Tag → Result Tag
unfolding validate_for_protocol
validate t =
    if str_eq t.opc_node_id ""
    then if str_eq t.s7_address ""
      then validate_for_protocol Protocol.modbus_tcp t
      else validate_for_protocol Protocol.s7 t
    else validate_for_protocol Protocol.opcua t
