-- ===== src/Modbus/Pool/Reaping.antt =====
-- What reapIdleConnections of internal/adapter/modbus/pool.go leaves.
use protocol_gateway.Prelude.{
  ℕ, ◌≡◌, ◌≤◌, ◌+◌, ◌⊎◌, ◌↔◌, false, ltb, refl, String, str_eq, eq_iff, List, [], ◌∷◌, Option, none,
  some, inl, inr, length, ap, if◌then◌else◌, Bool-cases, arith, All, ◌∙◌, sym,
}
use protocol_gateway.Prelude.Dict.{lookup}
use protocol_gateway.Prelude.Dict.Keys.{KeysOnce}
use protocol_gateway.Modbus.Pool.{
  PooledClient, ConnectionPool, PoolConfig, reap_idle_connections, reap_entries, is_stale,
}

module _ {B : Type 0} where
  -- What the reaper leaves of an entry.
  abbrev pub survives : PoolConfig → ℕ → Option (PooledClient B) → Option (PooledClient B)
  survives config now none = none
  survives config now (some pc) = if is_stale config now pc then none else some pc

  module _ (config : PoolConfig) (now : ℕ) where
    pub length-reap_entries :
        (entries : List (String × PooledClient B))
        → length (reap_entries config now entries) ≤ length entries
    unfolding reap_entries
    length-reap_entries [] = omega arith
    length-reap_entries ((key, pc) ∷ rest) = let le = length-reap_entries rest in ground arith

    pub All-reap_entries :
        (P : String → PooledClient B → Type 0) (entries : List (String × PooledClient B))
        → All (λ e. P e.0 e.1) entries
        → All (λ e. P e.0 e.1) (reap_entries config now entries)
    unfolding reap_entries
    All-reap_entries P [] h = h
    All-reap_entries P ((key, pc) ∷ rest) (a, h) = elim (Bool-cases (is_stale config now pc)) [
      | inl stale ↦ rw stale (All-reap_entries P rest h)
      | inr fresh ↦ rw fresh (a, All-reap_entries P rest h)
    ]

    lookup-reap_entries :
        (key : String) (entries : List (String × PooledClient B))
        → KeysOnce entries
        → lookup key (reap_entries config now entries) ≡ survives config now (lookup key entries)
    unfolding reap_entries lookup
    lookup-reap_entries key [] h = refl
    lookup-reap_entries key ((held, pc) ∷ rest) (n, h) = elim (Bool-cases (str_eq held key)) [
      | inl same ↦
          let gone =
            lookup-reap_entries key rest h
            ∙ ap (survives config now)
                (ap (λ k. lookup k rest) (sym ((eq_iff held key).0 same)) ∙ n) in
          elim (Bool-cases (is_stale config now pc)) [
            | inl stale ↦ rw (stale, same, stale) gone
            | inr fresh ↦ rw (fresh, same, fresh) refl
          ]
      | inr other ↦ elim (Bool-cases (is_stale config now pc)) [
        | inl stale ↦ rw (stale, other) (lookup-reap_entries key rest h)
        | inr fresh ↦ rw (fresh, other) (lookup-reap_entries key rest h)
      ]
    ]

    pub reap_entries-KeysOnce :
        (entries : List (String × PooledClient B))
        → KeysOnce entries
        → KeysOnce (reap_entries config now entries)
    unfolding reap_entries
    reap_entries-KeysOnce [] h = h
    reap_entries-KeysOnce ((key, pc) ∷ rest) (n, h) = elim (Bool-cases (is_stale config now pc)) [
      | inl stale ↦ rw stale (reap_entries-KeysOnce rest h)
      | inr fresh ↦ rw fresh (
        lookup-reap_entries key rest h ∙ ap (survives config now) n,
        reap_entries-KeysOnce rest h,
      )
    ]

  pub lookup-survives :
      (now : ℕ) (key : String) (p : ConnectionPool B)
      → KeysOnce p.clients
      → lookup key (reap_idle_connections now p).clients
        ≡ survives p.config now (lookup key p.clients)
  unfolding reap_idle_connections
  lookup-survives now key p h = lookup-reap_entries p.config now key p.clients h

  -- Used within the idle time, and made within the lifetime, where there is one.
  abbrev pub IsFresh : PoolConfig → ℕ → PooledClient B → Type 0
  IsFresh config now pc =
      (now ≤ pc.last_used + config.idle_timeout)
      × ((config.max_ttl ≡ 0) ⊎ (now ≤ pc.created_at + config.max_ttl))

  fresh_lem :
      (config : PoolConfig) (now : ℕ) (pc : PooledClient B)
      → is_stale config now pc ≡ false
      → IsFresh config now pc
  unfolding is_stale
  fresh_lem config now pc h = elim (Bool-cases (ltb 0 config.max_ttl)) [
    | inl limited ↦ (ground (arith, h), inr (ground (arith, h, limited)))
    | inr free ↦ (ground (arith, h), inl (ground (arith, free)))
  ]

  IsFresh-is_stale :
      (config : PoolConfig) (now : ℕ) (pc : PooledClient B)
      → IsFresh config now pc
      → is_stale config now pc ≡ false
  unfolding is_stale
  IsFresh-is_stale config now pc (used, inl free) = ground (arith, used, free)
  IsFresh-is_stale config now pc (used, inr made) = ground (arith, used, made)

  survives_iff :
      (config : PoolConfig) (now : ℕ) (o : Option (PooledClient B)) (pc : PooledClient B)
      → (survives config now o ≡ some pc) ↔ ((o ≡ some pc) × IsFresh config now pc)
  survives_iff config now none pc = (λ e. absurd (cc e), λ w. absurd (cc (w.0)))
  survives_iff config now (some qc) pc = elim (Bool-cases (is_stale config now qc)) [
    | inl stale ↦ (
      λ e. absurd (cc (rw stale at e)),
      λ w. let fresh = IsFresh-is_stale config now pc w.1 in absurd (cc (stale, fresh, w.0)),
    )
    | inr fresh ↦ (
      λ e.
          let same : some qc ≡ some pc = (rw fresh at e) in
          (same, fresh_lem config now pc (cc (fresh, same))),
      λ w. rw fresh (w.0),
    )
  ]

  -- After the reaper, of a pool whose keys stand once, a device has an entry exactly if it had that
  -- entry before, the entry was used no longer ago than the idle timeout, and it was made no longer
  -- ago than the lifetime, unless the lifetime is 0, which is none.
  pub lookup-reap_idle_connections :
      (now : ℕ) (key : String) (p : ConnectionPool B) (pc : PooledClient B)
      → KeysOnce p.clients
      → (lookup key (reap_idle_connections now p).clients ≡ some pc)
        ↔ ((lookup key p.clients ≡ some pc) × IsFresh p.config now pc)
  lookup-reap_idle_connections now key p pc h =
      let (to, from) = survives_iff p.config now (lookup key p.clients) pc in
      let e = lookup-survives now key p h in (λ k. to (sym e ∙ k), λ w. e ∙ from w)
