-- ===== src/Domain/Errors.antt =====
-- internal/domain/errors.go: the error values, and the results of fallible calls.
-- An error that is built in place by fmt.Errorf has a constructor of its own; a wrapped domain
-- error is the domain error.
use protocol_gateway.Prelude.{◌≡◌, refl, ℕ, String, ◌==◌, if◌then◌else◌}

pub data Error : Type 0 where
  device_exists device_not_found circuit_breaker_open service_overloaded service_stopped : Error
  protocol_not_supported protocol_required device_id_required device_name_required : Error
  no_tags_defined poll_interval_too_short uns_prefix_required : Error
  connection_closed connection_failed connection_timeout : Error
  read_failed write_failed invalid_data_length invalid_data_type invalid_register_type : Error
  invalid_register_count invalid_write_value tag_not_writable modbus_protocol_limit : Error
  modbus_illegal_function modbus_illegal_address modbus_illegal_value : Error
  modbus_device_failure modbus_acknowledge modbus_busy modbus_negative_ack : Error
  modbus_memory_parity_error modbus_gateway_path_unavailable : Error
  modbus_gateway_target_failed : Error
  mqtt_connection_failed mqtt_not_connected mqtt_publish_failed mqtt_subscribe_failed : Error
  buffer_contention : Error
  tag_id_required tag_name_required topic_suffix_required data_type_required : Error
  register_type_required bit_position_out_of_range register_count_insufficient : Error
  opc_node_id_required s7_address_required unsupported_protocol : Error
  deadline_exceeded canceled : Error
  pool_exhausted invalid_slave_id s7_invalid_area s7_invalid_address : Error
  s7_connection_failed s7_read_failed s7_write_failed : Error
  external : String → Error

-- A Go call returns a value or an error, or it panics (an index out of range).
pub data Result {ℓ} (A : Type ℓ) : Type ℓ where
  ok : A → Result A
  err : Error → Result A
  panic : Result A

infixl 5 ◌>>=◌
abbrev pub ◌>>=◌ {ℓ κ} : {A : Type ℓ} {B : Type κ} → Result A → (A → Result B) → Result B
ok a >>= f = f a
err e >>= f = err e
panic >>= f = panic

-- What a successful chain did first, and then.
pub bind-ok {ℓ κ} :
    {A : Type ℓ} {B : Type κ} (m : Result A) (k : A → Result B) {b : B}
    → (m >>= k) ≡ ok b
    → (a : A) × (m ≡ ok a) × (k a ≡ ok b)
bind-ok (ok a) k h = (a, refl, h)
bind-ok (err e) k h = cc
bind-ok panic k h = cc

-- ModbusExceptionToError: the switch on the exception code.
unfoldable pub modbus_exception_to_error : ℕ → Error
modbus_exception_to_error code =
    if code == 0x01
    then modbus_illegal_function
    else if code == 0x02
    then modbus_illegal_address
    else if code == 0x03
    then modbus_illegal_value
    else if code == 0x04
    then modbus_device_failure
    else if code == 0x05
    then modbus_acknowledge
    else if code == 0x06
    then modbus_busy
    else if code == 0x07
    then modbus_negative_ack
    else if code == 0x08
    then modbus_memory_parity_error
    else if code == 0x0A
    then modbus_gateway_path_unavailable
    else if code == 0x0B
    then modbus_gateway_target_failed
    else read_failed

-- The text of each error value. Of a text that is built in place, the part that names the tag and
-- the numbers is left out.
unfoldable pub message : Error → String
message device_exists = "device already exists"
message device_not_found = "device not found"
message circuit_breaker_open = "circuit breaker is open"
message service_overloaded = "service overloaded - brownout mode active"
message pool_exhausted = "connection pool exhausted"
message invalid_slave_id = "invalid slave ID"
message s7_invalid_area = "s7: invalid memory area"
message s7_invalid_address = "s7: invalid address format"
message s7_connection_failed = "s7: connection failed"
message s7_read_failed = "s7: read operation failed"
message s7_write_failed = "s7: write operation failed"
message service_stopped = "service has been stopped"
message protocol_not_supported = "protocol not supported"
message protocol_required = "protocol is required"
message device_id_required = "device ID is required"
message device_name_required = "device name is required"
message no_tags_defined = "at least one tag must be defined"
message poll_interval_too_short = "poll interval must be at least 100ms"
message uns_prefix_required = "UNS prefix is required"
message connection_closed = "connection closed"
message connection_failed = "connection failed"
message connection_timeout = "connection timeout"
message read_failed = "read operation failed"
message write_failed = "write operation failed"
message invalid_data_length = "invalid data length"
message invalid_data_type = "invalid data type"
message invalid_register_type = "invalid register type"
message invalid_register_count = "modbus: invalid register count"
message invalid_write_value = "invalid value for write operation"
message tag_not_writable = "tag is not writable"
message modbus_protocol_limit = "modbus: protocol limit exceeded"
message modbus_illegal_function = "modbus: illegal function"
message modbus_illegal_address = "modbus: illegal data address"
message modbus_illegal_value = "modbus: illegal data value"
message modbus_device_failure = "modbus: slave device failure"
message modbus_acknowledge = "modbus: acknowledge - long operation in progress"
message modbus_busy = "modbus: slave device busy"
message modbus_negative_ack = "modbus: negative acknowledge"
message modbus_memory_parity_error = "modbus: memory parity error"
message modbus_gateway_path_unavailable = "modbus: gateway path unavailable"
message modbus_gateway_target_failed = "modbus: gateway target device failed to respond"
message mqtt_connection_failed = "MQTT connection failed"
message mqtt_not_connected = "MQTT client not connected"
message mqtt_publish_failed = "MQTT publish failed"
message mqtt_subscribe_failed = "MQTT subscribe failed"
message buffer_contention = "message buffer full, contention too high"
message tag_id_required = "tag ID is required"
message tag_name_required = "tag name is required"
message topic_suffix_required = "tag topic suffix is required"
message data_type_required = "data type is required"
message register_type_required = "register type is required"
message bit_position_out_of_range = "bit position is out of range"
message register_count_insufficient = "register count is insufficient"
message opc_node_id_required = "opc node id is required"
message s7_address_required = "s7 address is required"
message unsupported_protocol = "unsupported protocol"
message deadline_exceeded = "context deadline exceeded"
message canceled = "context canceled"
message (external s) = s
