-- ===== src/Examples/Pooling.antt =====
-- A pool of Modbus connections, whose breakers open at the first failure.
use protocol_gateway.Prelude.{
  ◌↔◌, ◌≡◌, refl, Bool, true, false, [], ◌∷◌, none, some, if◌then◌else◌, eq_iff, not, ◌||◌, subst,
}
use protocol_gateway.Prelude.Text.{bytes}
use protocol_gateway.Prelude.Dict.{lookup, insert}
use protocol_gateway.Modbus.Client.{connect}
use protocol_gateway.Examples.Devices.{floats, level}
use protocol_gateway.Examples.Commands.{pump}
use protocol_gateway.Domain.Errors.{circuit_breaker_open, connection_closed}
use protocol_gateway.Domain.Device.{Device}
use protocol_gateway.Modbus.Errors.{plain, domain, fails}
use protocol_gateway.Modbus.Breaker.{Breakers, RejectsWhenOpen, admitted, open_state}
use protocol_gateway.Modbus.Pool.{
  PoolConfig, ConnectionPool, PooledClient, new_connection_pool, get_client, dialed, refused,
  client_config, reap_idle_connections,
}
use protocol_gateway.Modbus.Pool.Requests.{request, write_single_coil_of, pool_read_tags}
use protocol_gateway.Modbus.Pool.Invariant.{Reachable, Sound, Step, Reachable-Sound}
use protocol_gateway.Modbus.Pool.Isolation.{request-isolated, open-refuses}
use protocol_gateway.Modbus.Pool.Reaping.{IsFresh, lookup-reap_idle_connections}
use protocol_gateway.Modbus.Pool.Idle.{read_tags-reaped}
use protocol_gateway.Modbus.Range

-- A breaker is closed, or open for good.
abbrev pub fuses : Breakers
fuses = record {
  Breaker = Bool;
  new_breaker = λ now s. false;
  before_request = λ now b. (b, if b then open_state else admitted);
  after_request = λ now good b. b || not good;
  is_open = λ now b. b;
}

fuses-RejectsWhenOpen : RejectsWhenOpen fuses
fuses-RejectsWhenOpen now b h = rw h refl

-- The pool with one connected device, and with its breaker open or closed.
abbrev pooled : Bool → PooledClient Bool
pooled blown = record {
  client = record {
    device_id = "pump";
    max_retries = 3;
    connected = true;
    has_client = true;
    read_count = 0;
    write_count = 0;
    error_count = 0;
    retry_count = 0;
    consecutive_failures = 0;
    tag_diagnostics = [];
  };
  last_used = 5;
  device = pump;
  breaker = blown;
  created_at = 5;
  in_use = false;
  last_error = none;
}

abbrev config : PoolConfig
config = record {
  max_connections = 2;
  idle_timeout = 100;
  health_check_period = 10;
  connection_timeout = 10;
  retry_attempts = 3;
  retry_delay = 1;
  max_ttl = 0;
}

abbrev pool_with : Bool → ConnectionPool Bool
pool_with blown = record { config = config; clients = ("pump", pooled blown) ∷ []; closed = false }

-- The first request of the device makes that pool.
abbrev made : ConnectionPool Bool
made = (get_client fuses floats 5 dialed pump (new_connection_pool config)).0

made-pool : made ≡ pool_with false
unfolding get_client new_connection_pool lookup insert client_config connect
made-pool = refl

Reachable-Sound_example : Sound made
Reachable-Sound_example =
    Reachable-Sound fuses floats
      (Reachable.then (Reachable.created config) (Step.got_client 5 dialed pump))

abbrev valve : Device
valve = record pump { id = "valve" }

request-isolated_example :
    lookup "pump"
      (request fuses 9
        (write_single_coil_of (λ r. none) 1 true)
        floats
        (refused (bytes "no"))
        valve
        (pool_with false)).0.clients
    ≡ lookup "pump" (pool_with false).clients
request-isolated_example =
    request-isolated fuses floats 9 (write_single_coil_of (λ r. none) 1 true) (refused (bytes "no"))
      valve (pool_with false) "pump" (λ e. cc ((eq_iff "valve" "pump").1 e))

open-refuses_example :
    ((request fuses 9
        (write_single_coil_of (λ r. none) 1 true)
        floats
        dialed
        pump
        (pool_with true)).1
      ≡ fails (domain circuit_breaker_open))
    × (lookup "pump"
          (request fuses 9
            (write_single_coil_of (λ r. none) 1 true)
            floats
            dialed
            pump
            (pool_with true)).0.clients
        ≡ some (pooled true))
unfolding lookup
open-refuses_example =
    open-refuses fuses floats 9 (write_single_coil_of (λ r. none) 1 true) dialed pump
      (pool_with true) (pooled true) fuses-RejectsWhenOpen refl refl refl refl

lookup-reap_idle_connections_example :
    (lookup "pump" (reap_idle_connections 200 (pool_with false)).clients ≡ some (pooled false)) ↔ (
      (lookup "pump" (pool_with false).clients ≡ some (pooled false))
      × IsFresh config 200 (pooled false))
unfolding lookup
lookup-reap_idle_connections_example =
    lookup-reap_idle_connections 200 "pump" (pool_with false) (pooled false) (refl, tt)

abbrev mute : Range.Device
mute = λ k kind address. Range.failed (plain (bytes "eof"))

read_tags-reaped_example :
    lookup "pump"
      (reap_idle_connections 200
        (pool_read_tags fuses floats 200 dialed pump mute
          (domain connection_closed)
          (λ g. 9)
          (λ gs. gs)
          (level ∷ [])
          (pool_with false)).0).clients
    ≡ none
unfolding lookup
read_tags-reaped_example =
    read_tags-reaped fuses floats 200 dialed pump mute (domain connection_closed) (λ g. 9)
      (λ gs. gs) (level ∷ []) (pool_with false) (pooled false)
      (subst (λ (p : ConnectionPool Bool). Sound p) made-pool Reachable-Sound_example) refl refl
      refl refl
