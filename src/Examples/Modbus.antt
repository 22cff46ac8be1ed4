-- ===== src/Examples/Modbus.antt =====
-- Tags of the example device: validated, batched, read and written.
use protocol_gateway.Examples.Devices.{floats, level, flow, alarm, swapped, client, device}
use mathlib.Core.List.{Perm, map}
use protocol_gateway.Domain.Float.{one64}
use protocol_gateway.Prelude.{ℕ, List, [], ◌∷◌, ◌≡◌, refl, All, true, arith}
use protocol_gateway.Prelude.Text.{bytes}
use protocol_gateway.Domain.Errors.{ok}
use protocol_gateway.Domain.Tag.{Tag, RegisterType, Protocol, expected_register_count, ByteOrder}
use protocol_gateway.Domain.Value.{Value}
use protocol_gateway.Domain.DataPoint.{DataPoint}
use protocol_gateway.Domain.Validate.{
  validate_for_protocol, validate_specific, validate_common, validate_modbus, default_scale,
  bit_position_bad,
}
use protocol_gateway.Modbus.Convert.{parse_value, value_to_bytes}
use protocol_gateway.Modbus.Convert.RoundTrip.{parse_value-value_to_bytes}
use protocol_gateway.Modbus.Batch.{RegisterRange, default_batch_config, build_contiguous_ranges}
use protocol_gateway.Modbus.Batch.Ranges.{IsCovering, build_contiguous_ranges-IsCovering}
use protocol_gateway.Modbus.Errors.{io, done, net_error}
use protocol_gateway.Modbus.Range.{Progress, begin, read_tags_at, read_register_range}
use protocol_gateway.Modbus.Range.Slices.{OnePerTag, point_ids, read_register_range-OnePerTag}
use protocol_gateway.Modbus.Range.Aliasing.{point_alone, read_tags_at-big_endian}
use protocol_gateway.Modbus.Group.{read_tags}
use protocol_gateway.Modbus.Group.Complete.{read_tags_complete}
use mathlib.Core.List.Perm

read_tags_complete_example :
    (ps : List DataPoint) × ((read_tags floats device
        (io (net_error true (bytes "context deadline exceeded")))
        (λ g. 1)
        (λ gs. gs)
        client
        (level ∷ alarm ∷ flow ∷ [])).1
      ≡ done ps)
    × Perm (point_ids ps) ("level" ∷ "alarm" ∷ "flow" ∷ [])
unfolding expected_register_count
read_tags_complete_example =
    read_tags_complete floats device (io (net_error true (bytes "context deadline exceeded")))
      (λ g. 1) (λ gs. gs) client (level ∷ alarm ∷ flow ∷ []) (λ gs. Perm.refl gs)
      (omega arith, (omega arith, (omega arith, tt)))

parse_value-value_to_bytes_example :
    (bs : List ℕ) × (value_to_bytes floats (Value.uint16 513) swapped ≡ ok bs)
    × ((parse_value bs swapped).0 ≡ ok (Value.uint16 513))
unfolding expected_register_count
parse_value-value_to_bytes_example =
    parse_value-value_to_bytes floats swapped (Value.uint16 513) refl refl refl refl (omega arith)

build_contiguous_ranges-IsCovering_example :
    All (IsCovering 100) (build_contiguous_ranges (flow ∷ level ∷ []) default_batch_config)
build_contiguous_ranges-IsCovering_example =
    build_contiguous_ranges-IsCovering (flow ∷ level ∷ []) default_batch_config (omega arith)
      ((omega arith, omega arith, omega arith), ((omega arith, omega arith, omega arith), tt))

abbrev registers : RegisterRange
registers = record { start_address = 7; end_address = 9; tags = level ∷ flow ∷ [] }

abbrev coils : RegisterRange
coils = record { start_address = 3; end_address = 3; tags = alarm ∷ [] }

read_register_range-OnePerTag_example :
    OnePerTag
      (level ∷ flow ∷ [])
      (read_register_range floats device RegisterType.holding_register client registers).1
unfolding expected_register_count
read_register_range-OnePerTag_example =
    read_register_range-OnePerTag floats device RegisterType.holding_register client registers
      (omega arith, (omega arith, tt))

abbrev buffer : List ℕ
buffer = 1 ∷ 2 ∷ 3 ∷ 4 ∷ 5 ∷ 6 ∷ []

read_tags_at-big_endian_example :
    (q : Progress) × (read_tags_at floats 7 (begin client buffer) (level ∷ flow ∷ level ∷ [])
      ≡ done q)
    × (q.points ≡ map (point_alone floats "plc" 7 buffer) (level ∷ flow ∷ level ∷ []))
unfolding expected_register_count
read_tags_at-big_endian_example =
    read_tags_at-big_endian floats 7 client buffer (level ∷ flow ∷ level ∷ [])
      (omega arith, (omega arith, (omega arith, tt))) (refl, (refl, (refl, tt)))

-- A tag without a byte order or a register count.
abbrev bare : Tag
bare = record flow { byte_order = ByteOrder.unset; register_count = 0; scale_factor = 0 }

abbrev ready : Tag
ready = record flow { scale_factor = one64 }

bare-ready : validate_for_protocol Protocol.modbus_tcp bare ≡ ok ready
unfolding validate_for_protocol validate_specific validate_common validate_modbus default_scale
    bit_position_bad expected_register_count
bare-ready = refl

abbrev late : List ℕ
late = bytes "i/o timeout"
