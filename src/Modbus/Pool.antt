-- ===== src/Modbus/Pool.antt =====
-- The pool of Modbus connections (internal/adapter/modbus/pool.go; types.go; health.go, from
-- GetAllDeviceHealth on). A map is walked in the order of its list. Each operation runs to its end
-- before the next; the loops of the two goroutines are sequences of `check_client_health` and
-- `reap_idle_connections`. Times are in nanoseconds.
pub mod Requests
pub mod Cases
pub mod Invariant
pub mod Isolation
pub mod Reaping
pub mod Idle
use protocol_gateway.Prelude.{
  ℕ, ◌+◌, ◌-◌, Bool, true, false, not, ◌&&◌, ◌||◌, String, List, [], ◌∷◌, Option, none, some, ◌⊎◌,
  inl, inr, ltb, leb, ◌==◌, length, if◌then◌else◌, map,
}
use protocol_gateway.Prelude.Dict.{lookup, insert, delete}
use protocol_gateway.Domain.Errors.{
  connection_failed, connection_timeout, service_stopped, pool_exhausted, invalid_slave_id,
  device_not_found,
}
use protocol_gateway.Domain.Float.{Floats}
use protocol_gateway.Domain.Device.{Device}
use protocol_gateway.Modbus.Errors.{ClientError, domain, wrapped}
use protocol_gateway.Modbus.Client.{Client, connect}
use protocol_gateway.Modbus.Breaker.{Breakers, breaker_settings}

pub record PoolConfig : Type 0 where
  pub max_connections : ℕ
  pub idle_timeout : ℕ
  pub health_check_period : ℕ
  pub connection_timeout : ℕ
  pub retry_attempts : ℕ
  pub retry_delay : ℕ
  pub max_ttl : ℕ

unfoldable pub default_pool_config : PoolConfig
default_pool_config = record {
  max_connections = 500;
  idle_timeout = 300_000_000_000;
  health_check_period = 30_000_000_000;
  connection_timeout = 10_000_000_000;
  retry_attempts = 3;
  retry_delay = 100_000_000;
  max_ttl = 0;
}

-- pooledClient. The client's lastUsed, which `Client` leaves out, is kept here.
pub record PooledClient (B : Type 0) : Type 0 where
  pub client : Client
  pub last_used : ℕ
  pub device : Device
  pub breaker : B
  pub created_at : ℕ
  pub in_use : Bool
  pub last_error : Option ClientError

pub record ConnectionPool (B : Type 0) : Type 0 where
  pub config : PoolConfig
  pub clients : List (String × PooledClient B)
  pub closed : Bool

-- `if x == 0 { x = default }`
abbrev or_default : ℕ → ℕ → ℕ
or_default x default = if x == 0 then default else x

-- NewConnectionPool.
unfoldable pub new_connection_pool : {B : Type 0} → PoolConfig → ConnectionPool B
new_connection_pool config = record {
  config = record config {
    max_connections = or_default config.max_connections 500;
    idle_timeout = or_default config.idle_timeout 300_000_000_000;
    health_check_period = or_default config.health_check_period 30_000_000_000;
    connection_timeout = or_default config.connection_timeout 10_000_000_000;
  };
  clients = [];
  closed = false;
}

-- How an attempt to connect ends: connected, refused, or the context ends first.
pub data Dial : Type 0 where
  dialed : Dial
  refused ended : List ℕ → Dial

-- What Connect returns of it.
abbrev pub dial_error : Dial → Option ClientError
dial_error dialed = none
dial_error (refused text) = some (wrapped connection_failed text)
dial_error (ended text) = some (wrapped connection_timeout text)

-- ClientConfig; the address is the host and the port. It is never empty, so that the first test of
-- NewClient is left out.
pub record ClientConfig : Type 0 where
  pub host : String
  pub port : ℕ
  pub slave_id : ℕ
  pub timeout : ℕ
  pub idle_timeout : ℕ
  pub max_retries : ℕ
  pub retry_delay : ℕ

-- The configuration that createClient hands to NewClient, with its defaults.
unfoldable pub client_config : PoolConfig → Device → ClientConfig
client_config config d = record {
  host = d.host;
  port = d.connection.port;
  slave_id = d.connection.slave_id;
  timeout = or_default d.connection.timeout 5_000_000_000;
  idle_timeout = config.idle_timeout;
  max_retries = or_default d.connection.retry_count config.retry_attempts;
  retry_delay = or_default d.connection.retry_delay config.retry_delay;
}

-- NewClient; of the configuration a `Client` keeps the retries.
unfoldable pub new_client : String → ClientConfig → ClientError ⊎ Client
new_client id config =
    if config.slave_id == 0 || ltb 247 config.slave_id
    then inl (domain invalid_slave_id)
    else inr (record {
      device_id = id;
      max_retries = or_default config.max_retries 3;
      connected = false;
      has_client = false;
      read_count = 0;
      write_count = 0;
      error_count = 0;
      retry_count = 0;
      consecutive_failures = 0;
      tag_diagnostics = [];
    })

connect_new : Dial → ClientError ⊎ Client → ClientError ⊎ Client
connect_new dial (inl e) = inl e
connect_new dial (inr c) = elim (dial_error dial) [ none ↦ inr (connect true c).0 | some e ↦ inl e ]

unfoldable pub create_client : PoolConfig → Device → Dial → ClientError ⊎ Client
unfolding connect_new new_client
create_client config d dial = connect_new dial (new_client d.id (client_config config d))

module _ {B : Type 0} where
  -- The connection of an entry, which GetClient and checkClientHealth make again where it is lost.
  unfoldable pub restore : ℕ → Dial → PooledClient B → PooledClient B × Option ClientError
  restore now dial pc = if pc.client.connected then (pc, none) else elim (dial_error dial) [
    | none ↦ (record pc { client = (connect true pc.client).0; last_used = now }, none)
    | some e ↦ (record pc { client = (connect false pc.client).0; last_error = some e }, some e)
  ]

  abbrev pub with_clients : List (String × PooledClient B) → ConnectionPool B → ConnectionPool B
  with_clients clients p = record p { clients = clients }

  -- RemoveClient; Disconnect never fails.
  unfoldable pub remove_client : String → ConnectionPool B → ConnectionPool B × Option ClientError
  remove_client id p = elim (lookup id p.clients) [
    | none ↦ (p, some (domain device_not_found))
    | some _ ↦ (with_clients (delete id p.clients) p, none)
  ]

  -- Close. A second call panics, for the channel is closed twice: `none`.
  unfoldable pub close : ConnectionPool B → Option (ConnectionPool B)
  close p = if p.closed then none else some (record p { closed = true; clients = [] })

  abbrev pub after_check :
      ℕ → Dial → String → ConnectionPool B → Option (PooledClient B) → ConnectionPool B
  after_check now dial id p none = p
  after_check now dial id p (some pc) = with_clients (insert id (restore now dial pc).0 p.clients) p

  -- checkClientHealth; what the failed attempt returns is logged.
  unfoldable pub check_client_health : ℕ → Dial → String → ConnectionPool B → ConnectionPool B
  check_client_health now dial id p = after_check now dial id p (lookup id p.clients)

  -- Idle too long, or past its lifetime.
  unfoldable pub is_stale : PoolConfig → ℕ → PooledClient B → Bool
  is_stale config now pc =
      ltb config.idle_timeout (now - pc.last_used)
      || ltb 0 config.max_ttl && ltb config.max_ttl (now - pc.created_at)

  -- The loop of reapIdleConnections: the stale entries are deleted.
  unfoldable pub reap_entries :
      PoolConfig → ℕ → List (String × PooledClient B) → List (String × PooledClient B)
  reap_entries config now [] = []
  reap_entries config now ((id, pc) ∷ rest) =
      if is_stale config now pc
      then reap_entries config now rest
      else (id, pc) ∷ reap_entries config now rest

  unfoldable pub reap_idle_connections : ℕ → ConnectionPool B → ConnectionPool B
  unfolding reap_entries
  reap_idle_connections now p = with_clients (reap_entries p.config now p.clients) p

-- PoolStats and Stats.
pub record PoolStats : Type 0 where
  pub total_connections : ℕ
  pub active_connections : ℕ
  pub in_use_connections : ℕ
  pub max_connections : ℕ

module _ {B : Type 0} where
  -- The entries that pass a test are counted.
  unfoldable pub count_entries : (PooledClient B → Bool) → List (String × PooledClient B) → ℕ
  count_entries test [] = 0
  count_entries test ((id, pc) ∷ rest) =
      if test pc then count_entries test rest + 1 else count_entries test rest

  unfoldable pub stats : ConnectionPool B → PoolStats
  stats p = record {
    total_connections = length p.clients;
    active_connections = count_entries (λ pc. pc.client.connected) p.clients;
    in_use_connections = count_entries (λ pc. pc.in_use) p.clients;
    max_connections = p.config.max_connections;
  }

  -- HealthCheck and IsHealthy.
  unfoldable pub health_check : ConnectionPool B → Option ClientError
  health_check p = if p.closed then some (domain service_stopped) else none

  unfoldable pub is_healthy : ConnectionPool B → Bool
  is_healthy p = not p.closed

pub record DeviceHealth : Type 0 where
  pub device_id : String
  pub connected : Bool
  pub circuit_breaker_open : Bool
  pub last_error : Option ClientError

module _ (gb : Breakers) where
  device_health : ℕ → String → PooledClient gb.Breaker → DeviceHealth
  device_health now id pc = record {
    device_id = id;
    connected = pc.client.connected;
    circuit_breaker_open = gb.is_open now pc.breaker;
    last_error = pc.last_error;
  }

  -- GetDeviceHealth.
  unfoldable pub get_device_health : ℕ → String → ConnectionPool gb.Breaker → Option DeviceHealth
  unfolding device_health
  get_device_health now id p = elim (lookup id p.clients) [
    | none ↦ none
    | some pc ↦ some (device_health now id pc)
  ]

  -- GetAllDeviceHealth.
  unfoldable pub get_all_device_health :
      ℕ → ConnectionPool gb.Breaker → List (String × DeviceHealth)
  unfolding device_health
  get_all_device_health now p = map (λ e. (e.0, device_health now e.0 e.1)) p.clients

  module _ (fl : Floats) where
    -- The new entry of GetClient.
    unfoldable pub add_client :
        ℕ
        → Device
        → ConnectionPool gb.Breaker
        → ClientError ⊎ Client
        → ConnectionPool gb.Breaker × Option ClientError
    add_client now d p (inl e) = (p, some e)
    add_client now d p (inr c) = (
      with_clients
          (insert d.id
            (record {
              client = c;
              last_used = now;
              device = d;
              breaker = gb.new_breaker now (breaker_settings fl d);
              created_at = now;
              in_use = false;
              last_error = none;
            })
            p.clients)
          p,
      none,
    )

    -- GetClient; the client that it returns is the one of the device's entry.
    unfoldable pub get_client :
        ℕ
        → Dial
        → Device
        → ConnectionPool gb.Breaker
        → ConnectionPool gb.Breaker × Option ClientError
    unfolding add_client create_client
    get_client now dial d p =
        if p.closed then (p, some (domain service_stopped)) else elim (lookup d.id p.clients) [
          | some pc ↦
              let (pc', e) = restore now dial pc in (with_clients (insert d.id pc' p.clients) p, e)
          | none ↦
              if leb p.config.max_connections (length p.clients)
              then (p, some (domain pool_exhausted))
              else add_client now d p (create_client p.config d dial)
        ]
