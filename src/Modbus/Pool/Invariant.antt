-- ===== src/Modbus/Pool/Invariant.antt =====
-- The states that a pool of internal/adapter/modbus/pool.go reaches.
use protocol_gateway.Prelude.{
  ℕ, ◌≡◌, ◌≤◌, refl, Bool, true, false, String, List, [], ◌∷◌, Option, some, inl, inr, length, ap,
  Option-cases, Bool-cases, arith, All, ◌∙◌, subst, some_inj, sym,
}
use protocol_gateway.Prelude.Dict.{lookup, insert}
use protocol_gateway.Prelude.Dict.Keys.{
  KeysOnce, All-lookup, All-insert, All-delete, insert-KeysOnce, delete-KeysOnce,
  length-insert_found, length-insert, length-delete, delete-nil,
}
use protocol_gateway.Domain.Float.{Floats}
use protocol_gateway.Domain.Device.{Device}
use protocol_gateway.Modbus.Breaker.{Breakers}
use protocol_gateway.Modbus.Pool.{
  PooledClient, ConnectionPool, PoolConfig, Dial, with_clients, get_client, restore,
  new_connection_pool, remove_client, close, check_client_health, reap_idle_connections,
  reap_entries, stats, count_entries, after_check,
}
use protocol_gateway.Modbus.Pool.Reaping.{
  length-reap_entries, reap_entries-KeysOnce, All-reap_entries,
}
use protocol_gateway.Modbus.Pool.Requests.{Operation, request}
use protocol_gateway.Modbus.Pool.Cases.{
  fixed, restore-fixed, Stable, get_client-keeps, request-keeps,
}

-- One call of a method of the pool, or one round of its goroutines.
pub data Step (gb : Breakers) (fl : Floats)
    : ConnectionPool gb.Breaker → ConnectionPool gb.Breaker → Type 1 where
  got_client :
      {p : ConnectionPool gb.Breaker} (now : ℕ) (dial : Dial) (d : Device)
      → Step gb fl p (get_client gb fl now dial d p).0
  requested :
      {A : Type 0} {p : ConnectionPool gb.Breaker} (now : ℕ) (op : Operation A) (dial : Dial)
      (d : Device)
      → Step gb fl p (request gb now op fl dial d p).0
  removed : {p : ConnectionPool gb.Breaker} (id : String) → Step gb fl p (remove_client id p).0
  checked :
      {p : ConnectionPool gb.Breaker} (now : ℕ) (dial : Dial) (id : String)
      → Step gb fl p (check_client_health now dial id p)
  reaped : {p : ConnectionPool gb.Breaker} (now : ℕ) → Step gb fl p (reap_idle_connections now p)
  closed : {p q : ConnectionPool gb.Breaker} → close p ≡ some q → Step gb fl p q

pub data Reachable (gb : Breakers) (fl : Floats) : ConnectionPool gb.Breaker → Type 1 where
  created : (config : PoolConfig) → Reachable gb fl (new_connection_pool config)
  then : {p q : ConnectionPool gb.Breaker} → Reachable gb fl p → Step gb fl p q → Reachable gb fl q

-- An entry is under the key of its device, and is not marked as in use.
abbrev pub IsOwn : {B : Type 0} → String → PooledClient B → Type 0
IsOwn key pc = (pc.device.id ≡ key) × (pc.in_use ≡ false)

pub record Sound {B : Type 0} (p : ConnectionPool B) : Type 0 where
  pub bounded : length p.clients ≤ p.config.max_connections
  pub once : KeysOnce p.clients
  pub own : All (λ e. IsOwn e.0 e.1) p.clients
  pub emptied : p.closed ≡ true → p.clients ≡ []

module _ {B : Type 0} where
  changed-Sound :
      (p : ConnectionPool B) (key : String) (pc pc' : PooledClient B)
      → lookup key p.clients ≡ some pc
      → fixed pc' ≡ fixed pc
      → Sound p
      → Sound (with_clients (insert key pc' p.clients) p)
  unfolding lookup
  changed-Sound p key pc pc' e f s =
      let (i, u) = All-lookup IsOwn key p.clients s.own e in
      record {
        bounded = rw (length-insert_found key pc' p.clients e) s.bounded;
        once = insert-KeysOnce key pc' p.clients s.once;
        own =
            All-insert IsOwn key pc' p.clients (ap (λ w. w.0.id) f ∙ i, ap (λ w. w.2) f ∙ u) s.own;
        emptied =
            λ c. cc (ap (λ (m : List (String × PooledClient B)). lookup key m) (s.emptied c), e);
      }

pub Sound-Stable : (gb : Breakers) (d : Device) → Stable gb Sound d
Sound-Stable gb d = record {
  changes = λ p pc pc' e f s. changed-Sound p d.id pc pc' e f s;
  joins = λ p pc c room (i, u) s. record {
    bounded = let le = length-insert d.id pc p.clients in ground arith;
    once = insert-KeysOnce d.id pc p.clients s.once;
    own = All-insert IsOwn d.id pc p.clients (ap (λ d. d.id) i, u) s.own;
    emptied = λ closed. cc;
  };
}

module _ {B : Type 0} where
  remove_client-Sound :
      (p : ConnectionPool B) (id : String) → Sound p → Sound (remove_client id p).0
  unfolding remove_client
  remove_client-Sound p id s = elim (Option-cases (lookup id p.clients)) [
    | inl n ↦ simp (remove_client, n) s
    | inr (pc, e) ↦
        simp (remove_client, e)
          (record {
            bounded = let le = length-delete id p.clients in let b = s.bounded in omega arith;
            once = delete-KeysOnce id p.clients s.once;
            own = All-delete IsOwn id p.clients s.own;
            emptied = λ c. rw (s.emptied c) (delete-nil id);
          })
  ]

  check_client_health-Sound :
      (now : ℕ) (dial : Dial) (p : ConnectionPool B) (id : String)
      → Sound p
      → Sound (check_client_health now dial id p)
  unfolding check_client_health
  check_client_health-Sound now dial p id s = elim (Option-cases (lookup id p.clients)) [
    | inl n ↦ subst (λ (o : Option (PooledClient B)). Sound (after_check now dial id p o)) (sym n) s
    | inr (pc, e) ↦
        subst (λ (o : Option (PooledClient B)). Sound (after_check now dial id p o)) (sym e)
          (changed-Sound p id pc (restore now dial pc).0 e (restore-fixed now dial pc) s)
  ]

  reap_idle_connections-Sound :
      (now : ℕ) (p : ConnectionPool B) → Sound p → Sound (reap_idle_connections now p)
  unfolding reap_idle_connections reap_entries
  reap_idle_connections-Sound now p s = record {
    bounded =
        let le = length-reap_entries p.config now p.clients in let b = s.bounded in omega arith;
    once = reap_entries-KeysOnce p.config now p.clients s.once;
    own = All-reap_entries p.config now IsOwn p.clients s.own;
    emptied = λ c. rw (s.emptied c) refl;
  }

  close-Sound : (p q : ConnectionPool B) → close p ≡ some q → Sound q
  unfolding close
  close-Sound p q e = elim (Bool-cases p.closed) [
    | inl c ↦ cc (rw c at e)
    | inr c ↦
        subst (λ (x : ConnectionPool B). Sound x) (some_inj (rw c at e))
          (record { bounded = omega arith; once = tt; own = tt; emptied = λ _. refl })
  ]

  Sound-new : (config : PoolConfig) → Sound (new_connection_pool {B = B} config)
  unfolding new_connection_pool
  Sound-new config = record { bounded = omega arith; once = tt; own = tt; emptied = λ _. refl }

module _ (gb : Breakers) (fl : Floats) where
  Step-Sound : {p q : ConnectionPool gb.Breaker} → Step gb fl p q → Sound p → Sound q
  Step-Sound {p} (Step.got_client now dial d) s =
      get_client-keeps gb Sound d fl now dial (Sound-Stable gb d) p s
  Step-Sound {p} (Step.requested now op dial d) s =
      request-keeps gb Sound d fl now dial (Sound-Stable gb d) op p s
  Step-Sound {p} (Step.removed id) s = remove_client-Sound p id s
  Step-Sound {p} (Step.checked now dial id) s = check_client_health-Sound now dial p id s
  Step-Sound {p} (Step.reaped now) s = reap_idle_connections-Sound now p s
  Step-Sound {p} {q} (Step.closed e) s = close-Sound p q e

  -- In every state that a pool reaches, it holds no more connections than its limit, each under the
  -- key of its own device and no key twice; no entry is marked as in use; and a pool that is closed
  -- holds none.
  pub Reachable-Sound : {p : ConnectionPool gb.Breaker} → Reachable gb fl p → Sound p
  Reachable-Sound (Reachable.created config) = Sound-new config
  Reachable-Sound (Reachable.then r s) = Step-Sound s (Reachable-Sound r)

module _ {B : Type 0} where
  -- The entries that pass a test are some of them.
  pub count_entries-length :
      (test : PooledClient B → Bool) (entries : List (String × PooledClient B))
      → count_entries test entries ≤ length entries
  unfolding count_entries
  count_entries-length test [] = omega arith
  count_entries-length test ((key, pc) ∷ rest) =
      let le = count_entries-length test rest in ground arith

  unused :
      (entries : List (String × PooledClient B))
      → All (λ e. IsOwn e.0 e.1) entries
      → count_entries (λ pc. pc.in_use) entries ≡ 0
  unfolding count_entries
  unused [] h = refl
  unused ((key, pc) ∷ rest) ((_, u), h) = rw u (unused rest h)

  -- Stats of such a pool: the connected clients are no more than the connections, those no more than
  -- the limit, and no connection is ever in use.
  pub Sound-stats :
      (p : ConnectionPool B)
      → Sound p
      → ((stats p).active_connections ≤ (stats p).total_connections)
        × ((stats p).total_connections ≤ (stats p).max_connections)
        × ((stats p).in_use_connections ≡ 0)
  unfolding stats
  Sound-stats p s = (
    count_entries-length (λ pc. pc.client.connected) p.clients,
    s.bounded,
    unused p.clients s.own,
  )
