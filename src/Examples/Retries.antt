-- ===== src/Examples/Retries.antt =====
-- Single reads of the example device, over a connection that fails once, or for good.
use protocol_gateway.Examples.Devices.{floats, level, client, device}
use protocol_gateway.Prelude.{
  ℕ, zero, suc, ◌+◌, ◌≤◌, ◌<◌, ◌≡◌, refl, true, none, some, [], ◌∷◌, arith,
}
use protocol_gateway.Prelude.Text.{bytes}
use protocol_gateway.Domain.Errors.{message}
use protocol_gateway.Domain.Tag.{Tag}
use protocol_gateway.Domain.Value.{Value}
use protocol_gateway.Domain.DataPoint.{DataPoint, good, bad}
use protocol_gateway.Modbus.Bytes.{get_uint16, reorder_bytes}
use protocol_gateway.Modbus.Convert.{parse_value}
use protocol_gateway.Modbus.Errors.{ClientError, done, plain, net_error, contains}
use protocol_gateway.Modbus.Range.{Device, failed}
use protocol_gateway.Modbus.Single.{
  Surroundings, read_tag, validate_protocol_limits, is_readable_type,
}
use protocol_gateway.Modbus.Single.Retries.{read_tag-counters}
use protocol_gateway.Modbus.Single.Recovery.{
  Transient, IsRequest, read_tag_recovers, read_tag_unretried,
}

abbrev flaky_device : ℕ → Device
flaky_device zero = λ kind address count. failed (plain (bytes "connection reset"))
flaky_device (suc k) = device

abbrev pub flaky : Surroundings
flaky = record {
  device = flaky_device;
  dialed = λ k. true;
  ended = λ k. none;
  detail = λ e t. bytes (message e);
}

abbrev slow : Surroundings
slow = record flaky {
  device = λ k kind address count. failed (net_error true (bytes "i/o timeout"));
}

level-IsRequest : IsRequest level
unfolding validate_protocol_limits is_readable_type
level-IsRequest = record { in_limits = refl; typed = refl }

first_fails : (i : ℕ) → i < 1 → Transient flaky level i
unfolding contains
first_fails zero h = record {
  cause = plain (bytes "connection reset");
  refused = refl;
  worded = refl;
  dialed_again = refl;
  goes_on = refl;
}
first_fails (suc i) h = absurd (omega arith)

read_tag_recovers_example :
    (p : DataPoint) × ((read_tag floats level flaky client).1 ≡ done (some p, none))
    × (p.quality ≡ good)
    × (p.raw_value ≡ Value.uint16 257)
unfolding parse_value get_uint16 reorder_bytes
read_tag_recovers_example =
    read_tag_recovers floats level flaky client 1 (1 ∷ 1 ∷ []) (Value.uint16 257) refl refl
      level-IsRequest (omega arith) first_fails refl refl

read_tag_unretried_example :
    (p : DataPoint) × (x : ClientError) × ((read_tag floats level slow client).1
      ≡ done (some p, some x))
    × (p.quality ≡ bad)
    × ((read_tag floats level slow client).0.retry_count ≡ 0)
unfolding contains
read_tag_unretried_example =
    read_tag_unretried floats level slow client (net_error true (bytes "i/o timeout")) refl refl
      level-IsRequest refl refl

abbrev last : Tag
last = record level { address = 65535 }

read_tag-counters_example :
    let c' = (read_tag floats level flaky client).0 in
    (c'.read_count + c'.error_count ≤ 1) × (c'.retry_count ≤ 3)
read_tag-counters_example = read_tag-counters floats level flaky client
