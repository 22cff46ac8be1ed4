-- ===== src/Domain/Manager.antt =====
-- internal/domain/protocol.go: the pools of the protocols, and the routing of calls to them. A pool
-- is what it answers at one moment.
use protocol_gateway.Prelude.{
  ◌≡◌, refl, Bool, true, false, str_eq, List, [], ◌∷◌, Option, none, some, if◌then◌else◌, ◌↔◌,
  arith, eq_iff,
}
use protocol_gateway.Domain.Errors.{Error, Result, err, protocol_not_supported}
use protocol_gateway.Domain.Tag.{Tag, Protocol}
use protocol_gateway.Domain.Value.{Value}
use protocol_gateway.Domain.DataPoint.{DataPoint}
use protocol_gateway.Domain.Device.{Device}

-- The interface ProtocolPool.
pub record ProtocolPool : Type 0 where
  pub read_tags : Device → List Tag → Result (List DataPoint)
  pub read_tag : Device → Tag → Result DataPoint
  pub write_tag : Device → Tag → Value → Option Error
  pub close : Option Error
  pub health_check : Option Error

-- Equality of protocols, which are strings in the source.
unfoldable pub same_protocol : Protocol → Protocol → Bool
same_protocol Protocol.unset Protocol.unset = true
same_protocol Protocol.modbus_tcp Protocol.modbus_tcp = true
same_protocol Protocol.modbus_rtu Protocol.modbus_rtu = true
same_protocol Protocol.opcua Protocol.opcua = true
same_protocol Protocol.s7 Protocol.s7 = true
same_protocol Protocol.mqtt Protocol.mqtt = true
same_protocol (Protocol.other s) (Protocol.other r) = str_eq s r
same_protocol _ _ = false

pub record ProtocolManager : Type 0 where
  pub pools : List (Protocol × ProtocolPool)

find_pool : Protocol → List (Protocol × ProtocolPool) → Option ProtocolPool
find_pool p [] = none
find_pool p ((q, pool) ∷ rest) = if same_protocol q p then some pool else find_pool p rest

put_pool : Protocol → ProtocolPool → List (Protocol × ProtocolPool) → List (Protocol × ProtocolPool)
put_pool p pool [] = (p, pool) ∷ []
put_pool p pool ((q, old) ∷ rest) =
    if same_protocol q p then (p, pool) ∷ rest else (q, old) ∷ put_pool p pool rest

-- NewProtocolManager, RegisterPool and GetPool.
unfoldable pub new_protocol_manager : ProtocolManager
new_protocol_manager = record { pools = [] }

unfoldable pub register_pool : Protocol → ProtocolPool → ProtocolManager → ProtocolManager
unfolding put_pool
register_pool p pool m = record m { pools = put_pool p pool m.pools }

unfoldable pub get_pool : Protocol → ProtocolManager → Option ProtocolPool
unfolding find_pool
get_pool p m = find_pool p m.pools

-- ReadTags, ReadTag and WriteTag.
unfoldable pub route_read_tags : ProtocolManager → Device → List Tag → Result (List DataPoint)
route_read_tags m d ts = elim (get_pool d.protocol m) [
  | none ↦ err protocol_not_supported
  | some pool ↦ pool.read_tags d ts
]

unfoldable pub route_read_tag : ProtocolManager → Device → Tag → Result DataPoint
route_read_tag m d t = elim (get_pool d.protocol m) [
  | none ↦ err protocol_not_supported
  | some pool ↦ pool.read_tag d t
]

unfoldable pub route_write_tag : ProtocolManager → Device → Tag → Value → Option Error
route_write_tag m d t v = elim (get_pool d.protocol m) [
  | none ↦ some protocol_not_supported
  | some pool ↦ pool.write_tag d t v
]

-- Close: every pool is closed and forgotten; the errors of those that fail are joined.
close_errors : List (Protocol × ProtocolPool) → List Error
close_errors [] = []
close_errors ((p, pool) ∷ rest) = elim pool.close [
  | none ↦ close_errors rest
  | some e ↦ e ∷ close_errors rest
]

unfoldable pub close_all : ProtocolManager → ProtocolManager × List Error
unfolding close_errors
close_all m = (record m { pools = [] }, close_errors m.pools)

-- HealthCheck: the first error, in the order in which the map is walked.
first_error : List (Protocol × ProtocolPool) → Option Error
first_error [] = none
first_error ((p, pool) ∷ rest) = elim pool.health_check [
  | none ↦ first_error rest
  | some e ↦ some e
]

unfoldable pub health_check_all :
    (List (Protocol × ProtocolPool) → List (Protocol × ProtocolPool))
    → ProtocolManager
    → Option Error
unfolding first_error
health_check_all order m = first_error (order m.pools)

same_protocol_iff : (p q : Protocol) → (same_protocol p q ≡ true) ↔ (p ≡ q)
unfolding same_protocol
same_protocol_iff p q = grind (arith, eq_iff)

find-put :
    (p q : Protocol) (pool : ProtocolPool) (pools : List (Protocol × ProtocolPool))
    → find_pool q (put_pool p pool pools)
      ≡ (if same_protocol p q then some pool else find_pool q pools)
unfolding find_pool put_pool
find-put p q pool [] = refl
find-put p q pool ((r, old) ∷ rest) = ground (
  arith,
  same_protocol_iff p q,
  same_protocol_iff r p,
  same_protocol_iff r q,
  find-put p q pool rest,
)

-- A pool that is registered is found for its protocol, and the other protocols keep theirs.
get_pool-register_pool :
    (p q : Protocol) (pool : ProtocolPool) (m : ProtocolManager)
    → get_pool q (register_pool p pool m) ≡ (if same_protocol p q then some pool else get_pool q m)
unfolding get_pool register_pool
get_pool-register_pool p q pool m = find-put p q pool m.pools
