-- ===== src/S7/Client.antt =====
-- The state of an S7 client (internal/adapter/s7/client.go and health.go), the sorting of its
-- errors, and what it asks of the PLC. Times and `lastError` are left out; counters of 64 bits are unbounded.
pub mod Single
pub mod Bits
pub mod Reading
pub mod Writing
use protocol_gateway.Prelude.{
  ℕ, ◌+◌, Bool, ◌⊎◌, true, false, ◌&&◌, leb, String, str_eq, List, [], ◌∷◌, ◌++◌, map, Option, none,
  some, if◌then◌else◌, inr,
}
use protocol_gateway.Prelude.Text.{bytes}
use protocol_gateway.Prelude.Dict.{lookup, insert}
use protocol_gateway.Domain.Errors.{Error, Result, ok, err, panic, message}
use protocol_gateway.Domain.Value.{Value}
use protocol_gateway.Domain.Tag.{Tag, S7Area, AccessMode}
use protocol_gateway.Domain.DataPoint.{DataPoint, Quality, bad, not_connected, acquire_data_point}
use protocol_gateway.Modbus.Errors.{ClientError, domain, wrapped, io, io_text, IoError, contains}
use protocol_gateway.Modbus.Range.{Reply}
use protocol_gateway.S7.Address.{S7Location, parse_symbolic_address}

pub record TagDiagnostic : Type 0 where
  pub success_count : ℕ
  pub error_count : ℕ
  pub last_error : Option ClientError

pub record S7Client : Type 0 where
  pub device_id : String
  pub max_retries : ℕ
  pub connected : Bool
  pub has_client : Bool  -- `client` and `handler` are not nil
  pub read_count : ℕ
  pub write_count : ℕ
  pub error_count : ℕ
  pub retry_count : ℕ
  pub reconnect_count : ℕ
  pub consecutive_failures : ℕ
  pub tag_diagnostics : List (String × TagDiagnostic)

-- The diagnostic of a tag, which recordTagSuccess and recordTagError make where it is missing.
diagnostic : String → S7Client → TagDiagnostic
diagnostic id c = elim (lookup id c.tag_diagnostics) [
  | none ↦ record { success_count = 0; error_count = 0; last_error = none }
  | some d ↦ d
]

unfoldable pub record_tag_success : String → S7Client → S7Client
unfolding diagnostic
record_tag_success id c =
    let d = diagnostic id c in
    record c {
      tag_diagnostics =
          insert id (record d { success_count = d.success_count + 1 }) c.tag_diagnostics;
    }

unfoldable pub record_tag_error : String → ClientError → S7Client → S7Client
unfolding diagnostic
record_tag_error id e c =
    let d = diagnostic id c in
    record c {
      tag_diagnostics =
          insert id (record d { error_count = d.error_count + 1; last_error = some e })
            c.tag_diagnostics;
    }

-- err.Error(), and strings.ToLower of it, exact for ASCII.
abbrev pub error_text : ClientError → List ℕ
error_text (domain e) = bytes (message e)
error_text (wrapped e s) = bytes (message e) ++ bytes ": " ++ s
error_text (io e) = io_text e

abbrev to_lower : ℕ → ℕ
to_lower c = if leb 0x41 c && leb c 0x5a then c + 32 else c

abbrev pub connection_words : List (List ℕ)
connection_words =
    bytes "connection" ∷ bytes "timeout" ∷ bytes "closed" ∷ bytes "refused" ∷ bytes "reset" ∷ []

unfoldable pub is_connection_error : ClientError → Bool
is_connection_error e = contains (map to_lower (error_text e)) connection_words

unfoldable pub is_retryable_error : ClientError → Bool
unfolding is_connection_error
is_retryable_error e = is_connection_error e

unfoldable pub create_error_data_point : S7Client → Tag → ClientError → DataPoint
unfolding is_connection_error
create_error_data_point c t e =
    acquire_data_point c.device_id t.id "" Value.null t.unit
      (elim (is_connection_error e) [ true ↦ not_connected | false ↦ bad ])

-- Connect and Disconnect: whether the PLC is reached before the context ends is an argument.
unfoldable pub connect : Bool → S7Client → S7Client
connect dialed c =
    if c.connected
    then c
    else if dialed
    then record c { has_client = true; connected = true }
    else c

unfoldable pub disconnect : S7Client → S7Client
disconnect c = if c.connected then record c { connected = false; has_client = false } else c

unfoldable pub reconnect : Bool → S7Client → S7Client
unfolding connect disconnect
reconnect dialed c =
    connect dialed (disconnect (record c { reconnect_count = c.reconnect_count + 1 }))

writable_area : S7Area → Bool
writable_area S7Area.db = true
writable_area S7Area.merker = true
writable_area S7Area.output = true
writable_area S7Area.input = false
writable_area S7Area.timer = true
writable_area S7Area.counter = true
writable_area (S7Area.other s) = false

-- The area of a tag, by its address where that can be parsed.
area_of : Tag → Error ⊎ S7Location → S7Area
area_of t (inr l) = l.area
area_of t _ = t.s7_area

writable_by_mode : AccessMode → Bool → Bool
writable_by_mode AccessMode.unset by_area = by_area
writable_by_mode AccessMode.write by_area = true
writable_by_mode AccessMode.readwrite by_area = true
writable_by_mode _ by_area = false

-- isTagWritable.
unfoldable pub is_tag_writable : Tag → Bool
unfolding writable_by_mode writable_area area_of
is_tag_writable t = writable_by_mode t.access_mode (
    writable_area (
      if str_eq t.s7_address ""
      then t.s7_area
      else area_of t (parse_symbolic_address (bytes t.s7_address))))

-- What the client asks of the library gos7: bytes of a data block, or of the inputs (AGReadEB,
-- AGWriteEB).
pub data PlcRequest : Type 0 where
  ag_read_db : ℕ → ℕ → ℕ → PlcRequest
  ag_read_eb : ℕ → ℕ → PlcRequest
  ag_write_db : ℕ → ℕ → List ℕ → PlcRequest
  ag_write_eb : ℕ → List ℕ → PlcRequest

-- S7DataItem; the area is kept for its code.
pub record PlcItem : Type 0 where
  pub area : S7Area
  pub word_len : ℕ
  pub db_number : ℕ
  pub start : ℕ
  pub bit : ℕ
  pub amount : ℕ
  pub content : List ℕ  -- `Data`: what is written; zeros for a read

-- What becomes of an item: its `Error`, or its `Data`.
pub data ItemAnswer : Type 0 where
  item_error item_data : List ℕ → ItemAnswer

-- The library with the PLC behind it: a parameter. A request answers the bytes read, or none for a
-- write; AGReadMulti and AGWriteMulti fail as a whole, or answer for each item by its index.
pub record Plc : Type 1 where
  pub World : Type 0
  pub ask : PlcRequest → World → World × Reply
  pub ag_read_multi : List PlcItem → World → World × (IoError ⊎ (ℕ → ItemAnswer))
  pub ag_write_multi : List PlcItem → World → World × (IoError ⊎ (ℕ → ItemAnswer))

-- The switch on the area: a data block, and the inputs for everything else.
unfoldable pub read_request : S7Location → ℕ → PlcRequest
read_request l n = elim l.area [
  | S7Area.db ↦ ag_read_db l.db_number l.offset n
  | _ ↦ ag_read_eb l.offset n
]

unfoldable pub write_request : S7Location → List ℕ → PlcRequest
write_request l bs = elim l.area [
  | S7Area.db ↦ ag_write_db l.db_number l.offset bs
  | _ ↦ ag_write_eb l.offset bs
]

-- S7AreaCode knows the area.
unfoldable pub has_area_code : S7Area → Bool
has_area_code (S7Area.other s) = false
has_area_code _ = true
