-- ===== src/Domain/Device.antt =====
-- internal/domain/device.go: a device and its validation. The fields that no modelled code reads
-- (the description, most of the connection) are left out.
use protocol_gateway.Prelude.{
  ℕ, Bool, true, false, String, str_eq, List, [], ◌∷◌, ltb, Option, if◌then◌else◌,
}
use protocol_gateway.Domain.Errors.{
  Result, ok, err, ◌>>=◌, device_id_required, device_name_required, protocol_required,
  no_tags_defined, poll_interval_too_short, uns_prefix_required,
}
use protocol_gateway.Domain.Tag.{Tag, Protocol}
use protocol_gateway.Domain.Validate.{validate_for_protocol}

-- CircuitBreakerConfig; the ratio is a float, by its bits. Zero means the default of the pool.
pub record CircuitBreakerConfig : Type 0 where
  pub max_requests : ℕ
  pub interval : ℕ
  pub timeout : ℕ
  pub failure_threshold : ℕ
  pub failure_ratio : ℕ

-- The part of ConnectionConfig that the pool of connections reads, less the host.
pub record ConnectionConfig : Type 0 where
  pub port : ℕ
  pub slave_id : ℕ
  pub timeout : ℕ
  pub retry_count : ℕ
  pub retry_delay : ℕ
  pub circuit_breaker : Option CircuitBreakerConfig

pub record Device : Type 0 where
  pub id : String
  pub name : String
  pub protocol : Protocol
  pub host : String
  pub serial_port : String
  pub connection : ConnectionConfig
  pub tags : List Tag
  pub poll_interval : ℕ  -- nanoseconds
  pub enabled : Bool
  pub uns_prefix : String
  pub opc_use_subscriptions : Bool

is_unset_protocol : Protocol → Bool
is_unset_protocol Protocol.unset = true
is_unset_protocol _ = false

has_no_tags : List Tag → Bool
has_no_tags [] = true
has_no_tags (t ∷ ts) = false

-- The loop over the tags. A tag that is accepted has its defaults filled in.
validate_tags : Protocol → List Tag → Result (List Tag)
validate_tags p [] = ok []
validate_tags p (t ∷ ts) = do
  t' ← validate_for_protocol p t
  ts' ← validate_tags p ts
  ok (t' ∷ ts')

-- Validate. An accepted device comes back with its tags as validation leaves them.
unfoldable pub validate_device : Device → Result Device
unfolding is_unset_protocol has_no_tags validate_tags
validate_device d =
    if str_eq d.id ""
    then err device_id_required
    else if str_eq d.name ""
    then err device_name_required
    else if is_unset_protocol d.protocol
    then err protocol_required
    else if has_no_tags d.tags
    then err no_tags_defined
    else if ltb d.poll_interval 100000000
    then err poll_interval_too_short
    else if str_eq d.uns_prefix ""
    then err uns_prefix_required
    else (do ts ← validate_tags d.protocol d.tags; ok (record d { tags = ts }))

-- GetAddress.
unfoldable pub get_address : Device → String
get_address d = if str_eq d.host "" then d.serial_port else d.host
