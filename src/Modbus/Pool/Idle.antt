-- ===== src/Modbus/Pool/Idle.antt =====
-- What the pool of internal/adapter/modbus/pool.go takes for an idle connection.
use protocol_gateway.Prelude.{ℕ, ◌-◌, ◌≡◌, refl, true, false, List, none, some, ap, ltb, ◌∙◌}
use protocol_gateway.Prelude.Dict.{lookup}
use protocol_gateway.Domain.Float.{Floats}
use protocol_gateway.Domain.Tag.{Tag}
use protocol_gateway.Domain.Device.{Device}
use protocol_gateway.Modbus.Errors.{ClientError}
use protocol_gateway.Modbus.Breaker.{Breakers, Admission, admitted, open_state, too_many_requests}
use protocol_gateway.Modbus.Pool.{
  PooledClient, ConnectionPool, PoolConfig, Dial, reap_idle_connections, is_stale,
}
use protocol_gateway.Modbus.Pool.Requests.{admit, execute, request, pool_read_tags, read_tags_of}
use protocol_gateway.Modbus.Pool.Cases.{Stable, request-keeps}
use protocol_gateway.Modbus.Pool.Invariant.{Sound, Sound-Stable}
use protocol_gateway.Modbus.Pool.Isolation.{request-entry}
use protocol_gateway.Modbus.Pool.Reaping.{survives, lookup-survives}
use protocol_gateway.Modbus.Range

abbrev SameConfig : {B : Type 0} → PoolConfig → ConnectionPool B → Type 0
SameConfig config q = q.config ≡ config

SameConfig-Stable :
    (gb : Breakers) (d : Device) (config : PoolConfig) → Stable gb (SameConfig config) d
SameConfig-Stable gb d config = record {
  changes = λ p pc pc' e f s. s;
  joins = λ p pc c room own s. s;
}

idle-gone :
    {B : Type 0} (config : PoolConfig) (now : ℕ) (pc : PooledClient B)
    → ltb config.idle_timeout (now - pc.last_used) ≡ true
    → survives config now (some pc) ≡ none
unfolding is_stale
idle-gone config now pc h = rw h refl

module _ (gb : Breakers) (fl : Floats) (now : ℕ) (dial : Dial) (d : Device) (wire : Range.Device)
    (ended : ClientError) (alive : List Tag → ℕ) (order : List (List Tag) → List (List Tag))
    (ts : List Tag) where
  admit-last_used :
      (pc : PooledClient gb.Breaker) (b : gb.Breaker) (x : Admission)
      → (admit gb now (read_tags_of fl wire ended alive order ts) pc b x).0.last_used ≡ pc.last_used
  unfolding admit read_tags_of
  admit-last_used pc b admitted = refl
  admit-last_used pc b open_state = refl
  admit-last_used pc b too_many_requests = refl

  -- ReadTags does not count as a use. In a sound pool, a connected device whose tags are read many at
  -- a time loses its connection to the reaper right after such a read, at the same instant, once its
  -- last use of another kind is longer ago than the idle timeout.
  pub read_tags-reaped :
      (p : ConnectionPool gb.Breaker) (pc : PooledClient gb.Breaker)
      → Sound p
      → p.closed ≡ false
      → lookup d.id p.clients ≡ some pc
      → pc.client.connected ≡ true
      → ltb p.config.idle_timeout (now - pc.last_used) ≡ true
      → lookup d.id
          (reap_idle_connections now
            (pool_read_tags gb fl now dial d wire ended alive order ts p).0).clients
        ≡ none
  unfolding pool_read_tags execute
  read_tags-reaped p pc s c e connected idle =
      let op = read_tags_of fl wire ended alive order ts in
      let q = (request gb now op fl dial d p).0 in
      let (b, x) = gb.before_request now pc.breaker in
      let pc' = (admit gb now op pc b x).0 in
      let entry = (request-entry gb fl now op dial d p pc c e connected).0 in
      let sound = request-keeps gb Sound d fl now dial (Sound-Stable gb d) op p s in
      let same =
        request-keeps gb (SameConfig p.config) d fl now dial (SameConfig-Stable gb d p.config) op p
          refl in
      lookup-survives now d.id q sound.once
      ∙ ap (survives q.config now) entry
      ∙ ap (λ (config : PoolConfig). survives config now (some pc')) same
      ∙ idle-gone p.config now pc' (rw (admit-last_used pc b x) idle)
