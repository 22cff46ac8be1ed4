-- ===== src/Domain/DataPoint.antt =====
-- internal/domain/datapoint.go: a measurement. The timestamps, the latency and the metadata, which
-- no modelled decision reads, are left out.
use protocol_gateway.Prelude.{ℕ, String}
use protocol_gateway.Domain.Value.{Value}

pub data Quality : Type 0 where
  unset good bad uncertain not_connected config_error device_failure timeout : Quality

pub record DataPoint : Type 0 where
  pub device_id : String
  pub tag_id : String
  pub topic : String
  pub value : Value
  pub raw_value : Value
  pub unit : String
  pub quality : Quality
  pub priority : ℕ  -- uint8

-- AcquireDataPoint resets what its arguments do not set.
unfoldable pub acquire_data_point : String → String → String → Value → String → Quality → DataPoint
acquire_data_point device tag topic v unit q = record {
  device_id = device;
  tag_id = tag;
  topic = topic;
  value = v;
  raw_value = Value.null;
  unit = unit;
  quality = q;
  priority = 0;
}

unfoldable pub with_raw_value : DataPoint → Value → DataPoint
with_raw_value p v = record p { raw_value = v }

unfoldable pub with_priority : DataPoint → ℕ → DataPoint
with_priority p n = record p { priority = n }
