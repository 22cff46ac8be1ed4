-- ===== src/Examples/Devices.antt =====
-- Some tags of a device, the device, and a client that is connected to it.
use protocol_gateway.Prelude.{◌*◌, [], replicate, none, true}
use protocol_gateway.Prelude.Int.{pos}
use protocol_gateway.Domain.Float.{Floats, one64}
use protocol_gateway.Domain.Tag.{Tag, RegisterType, DataType, ByteOrder, AccessMode, S7Area}
use protocol_gateway.Modbus.Client.{Client}
use protocol_gateway.Modbus.Range.{Device, bytes_read}

-- Floats that no example computes with.
abbrev pub floats : Floats
floats = record {
  add = λ a b. a;
  sub = λ a b. a;
  mul = λ a b. a;
  div = λ a b. a;
  of_int = λ z. 0;
  of_uint = λ n. n;
  widen = λ a. a;
  narrow = λ a. a;
  to_int64 = λ a. pos a;
  to_uint64 = λ a. a;
  to_int64_32 = λ a. pos a;
  to_uint64_32 = λ a. a;
}

-- A holding register at address 7.
abbrev pub level : Tag
level = record {
  id = "level";
  name = "Level";
  address = 7;
  register_type = RegisterType.holding_register;
  data_type = DataType.uint16;
  byte_order = ByteOrder.big_endian;
  register_count = 1;
  bit_position = none;
  scale_factor = one64;
  offset = 0;
  unit = "m";
  topic_suffix = "level";
  enabled = true;
  access_mode = AccessMode.readwrite;
  priority = 1;
  opc_node_id = "";
  s7_area = S7Area.other "";
  s7_db_number = 0;
  s7_offset = 0;
  s7_bit_offset = 0;
  s7_address = "";
}

-- Two registers that follow it.
abbrev pub flow : Tag
flow = record level {
  id = "flow";
  name = "Flow";
  address = 8;
  data_type = DataType.int32;
  register_count = 2;
}

abbrev pub alarm : Tag
alarm = record level {
  id = "alarm";
  name = "Alarm";
  address = 3;
  register_type = RegisterType.coil;
  data_type = DataType.bool;
}

-- The first register again, little endian.
abbrev pub swapped : Tag
swapped = record level { id = "swapped"; byte_order = ByteOrder.little_endian }

abbrev pub client : Client
client = record {
  device_id = "plc";
  max_retries = 3;
  connected = true;
  has_client = true;
  read_count = 0;
  write_count = 0;
  error_count = 0;
  retry_count = 0;
  consecutive_failures = 0;
  tag_diagnostics = [];
}

-- It answers every request with as many bytes as a register read of that size has.
abbrev pub device : Device
device = λ kind address count. bytes_read (replicate (count * 2) 1)
