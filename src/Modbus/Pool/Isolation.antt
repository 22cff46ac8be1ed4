-- ===== src/Modbus/Pool/Isolation.antt =====
-- What a request of the pool of internal/adapter/modbus/pool.go does to the entry of its device,
-- and to the others.
use protocol_gateway.Prelude.{
  ℕ, ◌≡◌, ◌≢◌, refl, Bool, true, false, String, str_eq, eq_iff, Option, none, some, inl, inr, ap,
  if◌then◌else◌, Bool-cases, ◌∙◌,
}
use protocol_gateway.Prelude.Dict.{lookup, insert, lookup-insert}
use protocol_gateway.Domain.Errors.{circuit_breaker_open, service_stopped}
use protocol_gateway.Domain.Float.{Floats}
use protocol_gateway.Domain.Device.{Device}
use protocol_gateway.Modbus.Errors.{fails, domain}
use protocol_gateway.Modbus.Breaker.{Breakers, RejectsWhenOpen, Admission}
use protocol_gateway.Modbus.Pool.{
  PooledClient, ConnectionPool, Dial, with_clients, get_client, restore, List,
}
use protocol_gateway.Modbus.Pool.Requests.{
  Operation, admit, execute, execute_entry, after_client, request,
}
use protocol_gateway.Modbus.Pool.Cases.{Stable, request-keeps}

distinct_keys : (a b : String) → a ≢ b → str_eq a b ≡ false
distinct_keys a b h = elim (Bool-cases (str_eq a b)) [
  | inl e ↦ absurd (h ((eq_iff a b).0 e))
  | inr n ↦ n
]

module _ {A : Type 0} where
  lookup-insert_other :
      (key other : String) (a : A) (entries : List (String × A))
      → key ≢ other
      → lookup other (insert key a entries) ≡ lookup other entries
  lookup-insert_other key other a entries h =
      lookup-insert key other a entries
      ∙ ap (λ (b : Bool). if b then some a else lookup other entries) (distinct_keys key other h)

  lookup-insert_same :
      (key : String) (a : A) (entries : List (String × A))
      → lookup key (insert key a entries) ≡ some a
  lookup-insert_same key a entries =
      lookup-insert key key a entries
      ∙ ap (λ (b : Bool). if b then some a else lookup key entries) ((eq_iff key key).1 refl)

-- The entry of another device.
abbrev SameAt : {B : Type 0} → String → Option (PooledClient B) → ConnectionPool B → Type 0
SameAt key o q = lookup key q.clients ≡ o

SameAt-Stable :
    (gb : Breakers) (d : Device) (key : String) (o : Option (PooledClient gb.Breaker))
    → d.id ≢ key
    → Stable gb (SameAt key o) d
SameAt-Stable gb d key o h = record {
  changes = λ p pc pc' e f s. lookup-insert_other d.id key pc' p.clients h ∙ s;
  joins = λ p pc c room own s. lookup-insert_other d.id key pc p.clients h ∙ s;
}

-- A request to one device, whatever the device answers, leaves the entry of every other device in
-- the pool as it was: its connection, its breaker and its last error.
pub request-isolated :
    {A : Type 0} (gb : Breakers) (fl : Floats) (now : ℕ) (op : Operation A) (dial : Dial)
    (d : Device) (p : ConnectionPool gb.Breaker) (other : String)
    → d.id ≢ other
    → lookup other (request gb now op fl dial d p).0.clients ≡ lookup other p.clients
request-isolated gb fl now op dial d p other h =
    request-keeps gb (SameAt other (lookup other p.clients)) d fl now dial
      (SameAt-Stable gb d other (lookup other p.clients) h) op p refl

module _ {A : Type 0} (gb : Breakers) (fl : Floats) (now : ℕ) (op : Operation A) (dial : Dial)
    (d : Device) (p : ConnectionPool gb.Breaker) where
  -- A pool that is closed serves no request.
  pub closed-refuses :
      p.closed ≡ true → request gb now op fl dial d p ≡ (p, fails (domain service_stopped))
  unfolding request get_client after_client
  closed-refuses c = simp c

  module _ (pc : PooledClient gb.Breaker) (c : p.closed ≡ false)
      (e : lookup d.id p.clients ≡ some pc) (connected : pc.client.connected ≡ true) where
    get_client-connected :
        get_client gb fl now dial d p ≡ (with_clients (insert d.id pc p.clients) p, none)
    unfolding get_client restore
    get_client-connected = simp (c, e, connected)

    -- The request of a device that is connected, in one step.
    request-connected : request gb now op fl dial d p ≡ (
        let (pc', out) = execute gb now op pc in
        (with_clients (insert d.id pc' (insert d.id pc p.clients)) p, out))
    unfolding request after_client execute_entry
    request-connected = rw (get_client-connected, lookup-insert_same d.id pc p.clients) refl

    -- Its entry afterwards, and what it returns, are those of Execute.
    pub request-entry :
        (lookup d.id (request gb now op fl dial d p).0.clients ≡ some (execute gb now op pc).0)
        × ((request gb now op fl dial d p).1 ≡ (execute gb now op pc).1)
    request-entry = (
      rw request-connected
          (lookup-insert_same d.id (execute gb now op pc).0 (insert d.id pc p.clients)),
      rw request-connected refl,
    )

-- With its breaker open, a request to a connected device fails with ErrCircuitBreakerOpen and never
-- reaches the client: of the entry of the device nothing but the breaker may change.
pub open-refuses :
    {A : Type 0} (gb : Breakers) (fl : Floats) (now : ℕ) (op : Operation A) (dial : Dial)
    (d : Device) (p : ConnectionPool gb.Breaker) (pc : PooledClient gb.Breaker)
    → RejectsWhenOpen gb
    → p.closed ≡ false
    → lookup d.id p.clients ≡ some pc
    → pc.client.connected ≡ true
    → gb.is_open now pc.breaker ≡ true
    → ((request gb now op fl dial d p).1 ≡ fails (domain circuit_breaker_open))
      × (lookup d.id (request gb now op fl dial d p).0.clients
          ≡ some (record pc { breaker = (gb.before_request now pc.breaker).0 }))
unfolding execute admit
open-refuses gb fl now op dial d p pc law c e connected o =
    let (entry, out) = request-entry gb fl now op dial d p pc c e connected in
    let shut = law now pc.breaker o in
    (
      out
          ∙ ap (λ (x : Admission). (admit gb now op pc (gb.before_request now pc.breaker).0 x).1)
              shut,
      entry
          ∙ ap
              (λ (x : Admission).
                some (admit gb now op pc (gb.before_request now pc.breaker).0 x).0)
              shut,
    )
