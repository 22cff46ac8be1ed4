-- ===== src/Domain/Tag.antt =====
-- internal/domain/tag.go: a tag, its types, its register count and who may access it.
use protocol_gateway.Prelude.{◌<◌, arith, ℕ, Bool, true, false, String, Option}

-- `unset` is the empty string; `other` is any string that is no constant of the type.
pub data DataType : Type 0 where
  unset bool int16 uint16 int32 uint32 int64 uint64 float32 float64 string : DataType
  other : String → DataType

pub data RegisterType : Type 0 where
  unset coil discrete_input holding_register input_register : RegisterType
  other : String → RegisterType

pub data ByteOrder : Type 0 where
  unset big_endian little_endian mid_big mid_little : ByteOrder
  other : String → ByteOrder

pub data AccessMode : Type 0 where
  unset read write readwrite : AccessMode
  other : String → AccessMode

pub data Protocol : Type 0 where
  unset modbus_tcp modbus_rtu opcua s7 mqtt : Protocol
  other : String → Protocol

-- S7Area, a string in the source.
pub data S7Area : Type 0 where
  db merker input output timer counter : S7Area
  other : String → S7Area

-- A float64 is its IEEE 754 bit pattern. The fields that no modelled code reads (description,
-- deadband, OPC namespace, poll interval, metadata) are left out.
pub record Tag : Type 0 where
  pub id : String
  pub name : String
  pub address : ℕ  -- uint16
  pub register_type : RegisterType
  pub data_type : DataType
  pub byte_order : ByteOrder
  pub register_count : ℕ  -- uint16
  pub bit_position : Option ℕ  -- *uint8
  pub scale_factor : ℕ  -- float64 bits
  pub offset : ℕ  -- float64 bits
  pub unit : String
  pub topic_suffix : String
  pub enabled : Bool
  pub access_mode : AccessMode
  pub priority : ℕ  -- uint8
  pub opc_node_id : String
  pub s7_area : S7Area  -- `other ""` where it is not set
  pub s7_db_number : ℕ
  pub s7_offset : ℕ
  pub s7_bit_offset : ℕ  -- an int, documented as 0 to 7: a negative one is not modelled
  pub s7_address : String

-- ExpectedRegisterCount.
unfoldable pub expected_register_count : DataType → ℕ
expected_register_count DataType.bool = 1
expected_register_count DataType.int16 = 1
expected_register_count DataType.uint16 = 1
expected_register_count DataType.int32 = 2
expected_register_count DataType.uint32 = 2
expected_register_count DataType.float32 = 2
expected_register_count DataType.int64 = 4
expected_register_count DataType.uint64 = 4
expected_register_count DataType.float64 = 4
expected_register_count _ = 1

pub expected_register_count-pos : (d : DataType) → 0 < expected_register_count d
unfolding expected_register_count
expected_register_count-pos DataType.unset = omega arith
expected_register_count-pos _ = omega arith

writable_by_register : RegisterType → Bool
writable_by_register RegisterType.coil = true
writable_by_register RegisterType.holding_register = true
writable_by_register RegisterType.discrete_input = false
writable_by_register RegisterType.input_register = false
writable_by_register _ = false

writable_by_mode : AccessMode → RegisterType → Bool
unfolding writable_by_register
writable_by_mode AccessMode.unset r = writable_by_register r
writable_by_mode AccessMode.write r = true
writable_by_mode AccessMode.readwrite r = true
writable_by_mode _ r = false

-- IsWritable: an explicit access mode decides, else the register type.
unfoldable pub is_writable : Tag → Bool
unfolding writable_by_mode
is_writable t = writable_by_mode t.access_mode t.register_type

readable_by_mode : AccessMode → Bool
readable_by_mode AccessMode.unset = true
readable_by_mode AccessMode.read = true
readable_by_mode AccessMode.readwrite = true
readable_by_mode _ = false

-- IsReadable.
unfoldable pub is_readable : Tag → Bool
unfolding readable_by_mode
is_readable t = readable_by_mode t.access_mode
