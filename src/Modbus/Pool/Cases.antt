-- ===== src/Modbus/Pool/Cases.antt =====
-- What the operations of the pool do to its entries, as a rule for any property of the pool.
use protocol_gateway.Prelude.{
  ℕ, ◌≡◌, refl, Bool, false, Option, none, some, ◌⊎◌, inl, inr, length, leb, either_branch,
  Option-cases,
}
use protocol_gateway.Prelude.Dict.{lookup, insert}
use protocol_gateway.Domain.Float.{Floats}
use protocol_gateway.Domain.Device.{Device}
use protocol_gateway.Modbus.Errors.{ClientError}
use protocol_gateway.Modbus.Client.{Client}
use protocol_gateway.Modbus.Breaker.{Breakers, Admission, admitted, open_state, too_many_requests}
use protocol_gateway.Modbus.Pool.{
  PooledClient, ConnectionPool, Dial, dialed, refused, ended, restore, with_clients, get_client,
  add_client, create_client,
}
use protocol_gateway.Modbus.Pool.Requests.{
  Operation, admit, execute, execute_entry, after_client, request,
}

-- What no operation changes of an entry.
abbrev pub fixed : {B : Type 0} → PooledClient B → Device × ℕ × Bool
fixed pc = (pc.device, pc.created_at, pc.in_use)

abbrev SameFixed : {B : Type 0} → PooledClient B → PooledClient B × Option ClientError → Type 0
SameFixed pc r = fixed r.0 ≡ fixed pc

pub restore-fixed :
    {B : Type 0} (now : ℕ) (dial : Dial) (pc : PooledClient B)
    → fixed (restore now dial pc).0 ≡ fixed pc
unfolding restore
restore-fixed now dialed pc =
    either_branch (SameFixed pc) pc.client.connected (λ _. refl) (λ _. refl)
restore-fixed now (refused s) pc =
    either_branch (SameFixed pc) pc.client.connected (λ _. refl) (λ _. refl)
restore-fixed now (ended s) pc =
    either_branch (SameFixed pc) pc.client.connected (λ _. refl) (λ _. refl)

admit-fixed :
    {A : Type 0} (gb : Breakers) (now : ℕ) (op : Operation A) (pc : PooledClient gb.Breaker)
    (b : gb.Breaker) (x : Admission)
    → fixed (admit gb now op pc b x).0 ≡ fixed pc
unfolding admit
admit-fixed gb now op pc b admitted = refl
admit-fixed gb now op pc b open_state = refl
admit-fixed gb now op pc b too_many_requests = refl

-- A property of pools that an entry may change in, and that a new entry may join.
pub record Stable (gb : Breakers) (P : ConnectionPool gb.Breaker → Type 0) (d : Device)
    : Type 0 where
  pub changes :
      (p : ConnectionPool gb.Breaker) (pc pc' : PooledClient gb.Breaker)
      → lookup d.id p.clients ≡ some pc
      → fixed pc' ≡ fixed pc
      → P p
      → P (with_clients (insert d.id pc' p.clients) p)
  pub joins :
      (p : ConnectionPool gb.Breaker) (pc : PooledClient gb.Breaker)
      → p.closed ≡ false
      → leb p.config.max_connections (length p.clients) ≡ false
      → (pc.device ≡ d) × (pc.in_use ≡ false)
      → P p
      → P (with_clients (insert d.id pc p.clients) p)

module _ (gb : Breakers) (P : ConnectionPool gb.Breaker → Type 0) (d : Device) (fl : Floats)
    (now : ℕ) (dial : Dial) (s : Stable gb P d) where
  add_client-keeps :
      (p : ConnectionPool gb.Breaker) (c : ClientError ⊎ Client)
      → p.closed ≡ false
      → leb p.config.max_connections (length p.clients) ≡ false
      → P p
      → P (add_client gb fl now d p c).0
  unfolding add_client
  add_client-keeps p (inl e) a b h = h
  add_client-keeps p (inr c) a b h = s.joins p _ a b (refl, refl) h

  abbrev After : ConnectionPool gb.Breaker × Option ClientError → Type 0
  After r = P r.0

  pub get_client-keeps : (p : ConnectionPool gb.Breaker) → P p → P (get_client gb fl now dial d p).0
  unfolding get_client
  get_client-keeps p h =
      either_branch After p.closed (λ _. h)
        (λ open_pool. elim (Option-cases (lookup d.id p.clients)) [
          | inl n ↦ simp n (
              either_branch After (leb p.config.max_connections (length p.clients)) (λ _. h)
                (λ room. add_client-keeps p (create_client p.config d dial) open_pool room h))
          | inr (pc, e) ↦
              simp e (s.changes p pc (restore now dial pc).0 e (restore-fixed now dial pc) h)
        ])

  module _ {A : Type 0} (op : Operation A) where
    execute_entry-keeps :
        (p : ConnectionPool gb.Breaker) (o : Option (PooledClient gb.Breaker))
        → lookup d.id p.clients ≡ o
        → P p
        → P (execute_entry gb now op d p o).0
    unfolding execute_entry execute
    execute_entry-keeps p none e h = h
    execute_entry-keeps p (some pc) e h =
        let (b, x) = gb.before_request now pc.breaker in
        s.changes p pc (admit gb now op pc b x).0 e (admit-fixed gb now op pc b x) h

    after_client-keeps :
        (p : ConnectionPool gb.Breaker) (e : Option ClientError)
        → P p
        → P (after_client gb now op d p e).0
    unfolding after_client
    after_client-keeps p none h = execute_entry-keeps p (lookup d.id p.clients) refl h
    after_client-keeps p (some e) h = h

    pub request-keeps : (p : ConnectionPool gb.Breaker) → P p → P (request gb now op fl dial d p).0
    unfolding request
    request-keeps p h =
        after_client-keeps (get_client gb fl now dial d p).0 (get_client gb fl now dial d p).1
          (get_client-keeps p h)
