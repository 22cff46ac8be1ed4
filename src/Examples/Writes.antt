-- ===== src/Examples/Writes.antt =====
-- A write to the example device that fails once.
use protocol_gateway.Examples.Devices.{floats, level, client}
use protocol_gateway.Examples.Retries.{flaky}
use protocol_gateway.Prelude.{zero, suc, ◌+◌, ◌≤◌, ◌≡◌, none, some, if◌then◌else◌}
use protocol_gateway.Prelude.Text.{bytes}
use protocol_gateway.Domain.Value.{Value}
use protocol_gateway.Modbus.Errors.{plain}
use protocol_gateway.Modbus.Write.{WriteDevice, write_tag}
use protocol_gateway.Modbus.Write.Counters.{succeeded, write_tag-counters}

abbrev stubborn : WriteDevice
stubborn zero r = some (plain (bytes "broken pipe"))
stubborn (suc k) r = none

write_tag-counters_example :
    let (c', out) = write_tag floats stubborn flaky level (Value.uint16 7) client in
    (c'.write_count ≡ 0 + (if succeeded out then 1 else 0))
    × (c'.error_count + (if succeeded out then 1 else 0) ≤ 0 + 1)
    × (c'.retry_count ≤ 0 + 3)
write_tag-counters_example = write_tag-counters floats stubborn flaky level (Value.uint16 7) client
