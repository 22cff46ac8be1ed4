-- ===== src/Modbus/Range.antt =====
-- Batched reads (internal/adapter/modbus/client.go, readRegisterRange, readCoilRange and what calls
-- them). The raw bytes of a range are one buffer: parsing a tag reorders its slice in place, and
-- the next tag sees the buffer as it was left.
pub mod Slices
pub mod Aliasing
use protocol_gateway.Prelude.{
  ℕ, ◌+◌, ◌-◌, ◌*◌, ◌/◌, ◌%◌, Bool, true, false, List, [], ◌∷◌, ◌++◌, length, take, drop, get_or,
  leb, ltb, if◌then◌else◌,
}
use protocol_gateway.Domain.Errors.{
  Result, ok, err, panic, connection_closed, invalid_data_length, invalid_register_type,
}
use protocol_gateway.Domain.Float.{Floats}
use protocol_gateway.Domain.Tag.{Tag, RegisterType}
use protocol_gateway.Domain.Value.{Value}
use protocol_gateway.Domain.DataPoint.{
  DataPoint, good, acquire_data_point, with_raw_value, with_priority,
}
use protocol_gateway.Modbus.Convert.{parse_value, apply_scaling, test_bit, is_bit_register}
use protocol_gateway.Modbus.Batch.{RegisterRange, range_size}
use protocol_gateway.Modbus.Errors.{
  IoError, ClientError, Outcome, done, fails, panics, ◌>>=◌, domain, translate_modbus_error,
  error_quality,
}
use protocol_gateway.Modbus.Client.{
  Client, record_tag_success, record_tag_error, count_failure, count_success,
}

-- What the Modbus library answers to a read.
pub data Reply : Type 0 where
  bytes_read : List ℕ → Reply
  failed : IoError → Reply

-- The library's four read functions, as one: the register type, the address and the quantity.
abbrev pub Device : Type 0
Device = RegisterType → ℕ → ℕ → Reply

unfoldable pub create_error_data_point : Client → Tag → ClientError → DataPoint
create_error_data_point c t e =
    acquire_data_point c.device_id t.id "" Value.null t.unit (error_quality e)

-- `raw[offset : offset+n]` after its bytes were replaced by `xs`.
abbrev splice : List ℕ → ℕ → ℕ → List ℕ → List ℕ
splice raw offset n xs = take offset raw ++ xs ++ drop (offset + n) raw

-- The points read so far, the buffer and the client.
pub record Progress : Type 0 where
  pub points : List DataPoint
  pub raw : List ℕ
  pub client : Client

fail_tag : Progress → Tag → ClientError → Progress
unfolding create_error_data_point
fail_tag p t e = record p {
  points = p.points ++ create_error_data_point p.client t e ∷ [];
  client = record_tag_error t.id e p.client;
}

is_word_register : RegisterType → Bool
is_word_register RegisterType.holding_register = true
is_word_register RegisterType.input_register = true
is_word_register _ = false

-- `stats.ReadCount` and `consecutiveFailures` after an answer.
answered : Client → Client
answered c = record (count_success c) { read_count = c.read_count + 1 }

unwrap : Client → Outcome Progress → Client × Outcome (List DataPoint)
unwrap c (done p) = (p.client, done p.points)
unwrap c (fails e) = (c, fails e)
unwrap c panics = (c, panics)

abbrev pub begin : Client → List ℕ → Progress
begin c raw = record { points = []; raw = raw; client = c }

module _ (fl : Floats) where
  good_point : Client → Tag → Value → DataPoint
  good_point c t v =
      with_priority
        (with_raw_value (acquire_data_point c.device_id t.id "" (apply_scaling fl v t) t.unit good)
          v)
        t.priority

  pass_tag : Progress → Tag → Value → Progress
  unfolding good_point
  pass_tag p t v = record p {
    points = p.points ++ good_point p.client t v ∷ [];
    client = record_tag_success t.id p.client;
  }

  finish_tag : Progress → Tag → Result Value → Outcome Progress
  unfolding pass_tag fail_tag
  finish_tag p t (ok v) = done (pass_tag p t v)
  finish_tag p t (err e) = done (fail_tag p t (domain e))
  finish_tag p t panic = panics

  -- One round of the loop over the tags of a register range.
  read_tag_at : ℕ → Progress → Tag → Outcome Progress
  unfolding finish_tag
  read_tag_at start p t =
      let offset = (t.address + 65536 - start) % 65536 * 2 in
      let size = t.register_count * 2 in
      if ltb (length p.raw) (offset + size)
      then done (fail_tag p t (domain invalid_data_length))
      else let (v, xs) = parse_value (take size (drop offset p.raw)) t in
        finish_tag (record p { raw = splice p.raw offset size xs }) t v

  pub read_tags_at : ℕ → Progress → List Tag → Outcome Progress
  unfolding read_tag_at
  read_tags_at start p [] = done p
  read_tags_at start p (t ∷ ts) = do p' ← read_tag_at start p t; read_tags_at start p' ts

  on_reply : ℕ → Client → List Tag → Reply → Client × Outcome (List DataPoint)
  unfolding read_tags_at answered unwrap
  on_reply start c ts (failed e) = (count_failure c, fails (translate_modbus_error e))
  on_reply start c ts (bytes_read raw) = unwrap c (read_tags_at start (begin (answered c) raw) ts)

  -- readRegisterRange.
  pub read_register_range :
      Device → RegisterType → Client → RegisterRange → Client × Outcome (List DataPoint)
  unfolding on_reply is_word_register
  read_register_range device kind c r =
      if c.has_client
      then if is_word_register kind
        then on_reply r.start_address c r.tags
            (device kind r.start_address (range_size r.start_address r.end_address))
        else (c, fails (domain invalid_register_type))
      else (c, fails (domain connection_closed))

  -- One round of the loop over the tags of a coil range: bit 0 of byte 0 is the first coil.
  read_coil_at : ℕ → Progress → Tag → Progress
  unfolding pass_tag fail_tag
  read_coil_at start p t =
      let bit_offset = (t.address + 65536 - start) % 65536 in
      if leb (length p.raw) (bit_offset / 8)
      then fail_tag p t (domain invalid_data_length)
      else pass_tag p t (Value.bool (test_bit (get_or p.raw (bit_offset / 8) 0) (bit_offset % 8)))

  read_coils_at : ℕ → Progress → List Tag → Progress
  unfolding read_coil_at
  read_coils_at start p [] = p
  read_coils_at start p (t ∷ ts) = read_coils_at start (read_coil_at start p t) ts

  on_coil_reply : ℕ → Client → List Tag → Reply → Client × Outcome (List DataPoint)
  unfolding read_coils_at answered
  on_coil_reply start c ts (failed e) = (count_failure c, fails (translate_modbus_error e))
  on_coil_reply start c ts (bytes_read raw) =
      let p = read_coils_at start (begin (answered c) raw) ts in (p.client, done p.points)

  -- readCoilRange.
  pub read_coil_range :
      Device → RegisterType → Client → RegisterRange → Client × Outcome (List DataPoint)
  unfolding on_coil_reply
  read_coil_range device kind c r =
      if c.has_client
      then if is_bit_register kind
        then on_coil_reply r.start_address c r.tags
            (device kind r.start_address (range_size r.start_address r.end_address))
        else (c, fails (domain invalid_register_type))
      else (c, fails (domain connection_closed))
