-- ===== src/Examples/Plc.antt =====
-- Addresses, values and writes of an S7 PLC.
use protocol_gateway.Prelude.{
  ℕ, ◌≡◌, refl, inr, get_elem?, true, false, List, [], ◌∷◌, none, some, ◌&&◌, ◌==◌, if◌then◌else◌,
  arith, length, Option, inl,
}
use protocol_gateway.Prelude.Text.{bytes}
use protocol_gateway.Examples.Devices.{floats, level}
use protocol_gateway.Domain.Errors.{ok, s7_invalid_address}
use protocol_gateway.Domain.Value.{Value, to_bool}
use protocol_gateway.Domain.Tag.{Tag, DataType, S7Area, AccessMode}
use protocol_gateway.Modbus.Convert.{test_bit}
use protocol_gateway.Modbus.Errors.{done}
use protocol_gateway.Modbus.Range.{Reply, bytes_read}
use protocol_gateway.S7.Address.{location, parse_tag_address, parse_symbolic_address}
use protocol_gateway.S7.Address.Printing.{word, print}
use protocol_gateway.S7.Address.RoundTrip.{parse-print}
use protocol_gateway.S7.Convert.{reverse_scaling, parse_value, value_to_bytes, get_byte_count}
use protocol_gateway.S7.Convert.Typed.{Answers, parse_value-Answers}
use protocol_gateway.S7.Convert.RoundTrip.{parse_value-value_to_bytes_s7}
use protocol_gateway.S7.Client.{
  is_tag_writable, S7Client, Plc, PlcRequest, ag_read_db, ag_read_eb, ag_write_db, ag_write_eb,
  PlcItem, ItemAnswer, item_error, item_data,
}
use protocol_gateway.S7.Client.Single.{Surroundings, is_bool, write_tag}
use protocol_gateway.S7.Client.Reading.Whole.{read_tags}
use protocol_gateway.S7.Client.Reading.Optimized.{Complete}
use protocol_gateway.S7.Client.Reading.Ordered.{read_tags-Complete}
use protocol_gateway.S7.Client.Writing.{TagWrite, write_tags}
use protocol_gateway.S7.Client.Writing.Reports.{Reports, write_tags-Reported}
use protocol_gateway.S7.Client.Single.Memory.{Remembers, slice, written, in_memory, write_tag-PutAt}

parse-lower : parse_symbolic_address (bytes " db1.dbx4.3 ") ≡ inr (location S7Area.db 1 4 3)
unfolding parse_symbolic_address
parse-lower = refl

parse-high_bit : parse_symbolic_address (bytes "M2.9") ≡ inl s7_invalid_address
unfolding parse_symbolic_address
parse-high_bit = refl

parse-print_example :
    parse_symbolic_address (print (some word) S7Area.db 12 340 0)
    ≡ inr (location S7Area.db 12 340 0)
parse-print_example =
    parse-print (some word) S7Area.db 12 340 0 (omega arith, omega arith) (omega arith)

parse_value-Answers_example : Answers DataType.uint16 (parse_value (3 ∷ 232 ∷ []) level 0)
parse_value-Answers_example =
    parse_value-Answers (3 ∷ 232 ∷ []) level 0 (omega arith, (omega arith, tt))

parse_value-value_to_bytes_s7_example :
    (bs : List ℕ) × (value_to_bytes floats (Value.uint16 1000) level 0 ≡ ok bs)
    × (length bs ≡ get_byte_count DataType.uint16)
    × (parse_value bs level 0 ≡ ok (Value.uint16 1000))
parse_value-value_to_bytes_s7_example =
    parse_value-value_to_bytes_s7 floats level 0 (Value.uint16 1000) refl (omega arith)
      (omega arith)

-- A PLC that is its memory.
abbrev Memory : Type 0
Memory = S7Area → ℕ → ℕ → ℕ

store : S7Area → ℕ → ℕ → List ℕ → Memory → Memory
store a d offset bs w a' d' i =
    if in_memory a d a' d' then written offset bs i (w a' d' i) else w a' d' i

abbrev answer : PlcRequest → Memory → Memory × Reply
answer (ag_read_db d offset n) w = (w, bytes_read (slice (w S7Area.db d) offset n))
answer (ag_read_eb offset n) w = (w, bytes_read (slice (w S7Area.input 0) offset n))
answer (ag_write_db d offset bs) w = (store S7Area.db d offset bs w, bytes_read [])
answer (ag_write_eb offset bs) w = (store S7Area.input 0 offset bs w, bytes_read [])

abbrev item_of : Option PlcItem → Memory → ItemAnswer
item_of none w = item_error []
item_of (some i) w = item_data (slice (w i.area i.db_number) i.start i.amount)

abbrev memory_plc : Plc
memory_plc = record {
  World = Memory;
  ask = answer;
  ag_read_multi = λ items w. (w, inr (λ i. item_of (get_elem? items i) w));
  ag_write_multi = λ items w. (w, inr (λ i. item_data []));
}

memory_plc-Remembers : Remembers memory_plc
unfolding store
memory_plc-Remembers = record {
  byte_at = λ w. w;
  reads_db = λ d offset n w. refl;
  reads_eb = λ offset n w. refl;
  writes_db = λ d offset bs w. ([], refl);
  writes_eb = λ offset bs w. ([], refl);
  after_db = λ d offset bs w a d' i. refl;
  after_eb = λ offset bs w a d' i. refl;
}

abbrev env : Surroundings
env = record {
  dialed = λ k. true;
  ended = λ k. none;
  place = λ l. [];
  detail = λ e t. [];
  stopped = λ k. none;
  stopped_later = λ k. none;
  excess = λ t xs. [];
  missing = λ t. [];
}

abbrev s7_client : S7Client
s7_client = record {
  device_id = "press";
  max_retries = 3;
  connected = true;
  has_client = true;
  read_count = 0;
  write_count = 0;
  error_count = 0;
  retry_count = 0;
  reconnect_count = 0;
  consecutive_failures = 0;
  tag_diagnostics = [];
}

abbrev lamp : Tag
lamp = record level { data_type = DataType.bool; s7_address = "DB2.DBX1.3" }

abbrev full : Memory
full = λ a d i. 255

write_tag-PutAt_example :
    let r = write_tag memory_plc floats env lamp (Value.bool false) (full, s7_client) in
    (r.1 ≡ done tt)
    × ((a : S7Area) (d i j : ℕ)
        → test_bit (memory_plc-Remembers.byte_at r.0.0 a d i) j ≡ (
            if in_memory S7Area.db 2 a d && i == 1 && j == 3
            then false
            else test_bit (memory_plc-Remembers.byte_at full a d i) j))
unfolding parse_tag_address parse_symbolic_address to_bool reverse_scaling is_tag_writable is_bool
write_tag-PutAt_example =
    write_tag-PutAt memory_plc memory_plc-Remembers floats env lamp (Value.bool false)
      (location S7Area.db 2 1 3) false full s7_client refl refl refl refl refl refl (omega arith)

read_tags-Complete_example :
    Complete
      (lamp ∷ level ∷ [])
      (read_tags memory_plc floats env (λ groups. groups) (lamp ∷ level ∷ []) (full, s7_client)).1
read_tags-Complete_example =
    read_tags-Complete memory_plc floats env (λ groups. groups) (lamp ∷ level ∷ [])
      (full, s7_client)

-- A bit, a word, and a tag that is only read.
abbrev writes : List TagWrite
writes =
    record { tag = lamp; value = Value.bool false }
    ∷ record {
      tag = record level { s7_address = "DB2.DBW4"; access_mode = AccessMode.readwrite };
      value = Value.uint16 7;
    }
    ∷ record { tag = record level { s7_address = "IW0" }; value = Value.uint16 7 }
    ∷ []

write_tags-Reported_example :
    Reports memory_plc floats env writes
      (write_tags memory_plc floats env writes (full, s7_client)).1
write_tags-Reported_example = write_tags-Reported memory_plc floats env writes full s7_client refl
