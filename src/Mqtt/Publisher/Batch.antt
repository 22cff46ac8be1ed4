-- ===== src/Mqtt/Publisher/Batch.antt =====
-- The counters of PublishBatch in internal/adapter/mqtt/publisher.go.
use protocol_gateway.Prelude.{
  ℕ, ◌+◌, ◌≡◌, refl, ◌∙◌, true, List, [], ◌∷◌, ◌++◌, Option, none, some, Option-cases, inl, inr,
  arith, either_branch,
}
use protocol_gateway.Domain.Errors.{Error}
use protocol_gateway.Domain.DataPoint.{DataPoint}
use protocol_gateway.Mqtt.Publisher.{
  BufferedMessage, Publisher, Delivery, publish, publish_batch, publish_rest, publish_raw, settle,
  after_publish,
}

-- What a message adds to the failures, and to what is published.
abbrev failures_of : Delivery → ℕ
failures_of Delivery.delivered = 0
failures_of _ = 2

abbrev successes_of : Delivery → ℕ
successes_of Delivery.delivered = 1
successes_of _ = 0

module _ (to_json : DataPoint → Option (List ℕ)) where
  abbrev failures_at : DataPoint → Delivery → ℕ
  failures_at dp d = elim (to_json dp) [ none ↦ 1 | some payload ↦ failures_of d ]

  abbrev successes_at : DataPoint → Delivery → ℕ
  successes_at dp d = elim (to_json dp) [ none ↦ 0 | some payload ↦ successes_of d ]

  abbrev pub failures : List (DataPoint × Delivery) → ℕ
  failures [] = 0
  failures ((dp, d) ∷ rest) = failures_at dp d + failures rest

  abbrev pub successes : List (DataPoint × Delivery) → ℕ
  successes [] = 0
  successes ((dp, d) ∷ rest) = successes_at dp d + successes rest

-- `f` more failures, and `s` more messages published.
record Counted (f s : ℕ) (p q : Publisher) : Type 0 where
  connected : q.connected ≡ p.connected
  has_client : q.has_client ≡ p.has_client
  failed : q.stats.messages_failed ≡ p.stats.messages_failed + f
  published : q.stats.messages_published ≡ p.stats.messages_published + s

settle-Counted :
    (d : Delivery) (now : ℕ) (msg : BufferedMessage) (p : Publisher) (last : Option Error)
    → Counted
        (failures_of d)
        (successes_of d)
        p
        (after_publish (settle d now msg (record p { sent = p.sent ++ msg ∷ [] })) last).0
unfolding settle after_publish
settle-Counted Delivery.delivered now msg p last = record {
  connected = refl;
  has_client = refl;
  failed = omega arith;
  published = omega arith;
}
settle-Counted Delivery.refused now msg p last = record {
  connected = refl;
  has_client = refl;
  failed = omega arith;
  published = omega arith;
}
settle-Counted Delivery.timed_out now msg p last = record {
  connected = refl;
  has_client = refl;
  failed = omega arith;
  published = omega arith;
}
settle-Counted Delivery.cancelled now msg p last = record {
  connected = refl;
  has_client = refl;
  failed = omega arith;
  published = omega arith;
}

unserialized-Counted :
    (e : Error) (p : Publisher) (last : Option Error)
    → Counted 1 0 p (after_publish (p, some e) last).0
unfolding after_publish
unserialized-Counted e p last = record {
  connected = refl;
  has_client = refl;
  failed = omega arith;
  published = omega arith;
}

publish_raw-Counted :
    (now : ℕ) (msg : BufferedMessage) (d : Delivery) (p : Publisher) (last : Option Error)
    → p.has_client ≡ true
    → Counted (failures_of d) (successes_of d) p (after_publish (publish_raw d now msg p) last).0
unfolding publish_raw
publish_raw-Counted now msg d p last has =
    either_branch
      (λ (r : Publisher × Option Error).
        Counted (failures_of d) (successes_of d) p (after_publish r last).0)
      p.has_client (λ e. settle-Counted d now msg p last) (λ e. cc)

module _ (to_json : DataPoint → Option (List ℕ)) where
  publish-Counted :
      (now : ℕ) (dp : DataPoint) (d : Delivery) (p : Publisher) (last : Option Error)
      → p.connected ≡ true
      → p.has_client ≡ true
      → Counted
          (failures_at to_json dp d)
          (successes_at to_json dp d)
          p
          (after_publish (publish to_json d now dp p) last).0
  unfolding publish
  publish-Counted now dp d p last on has = elim (Option-cases (to_json dp)) [
    | inl n ↦ simp (publish, failures_at, successes_at, n) (unserialized-Counted _ p last)
    | inr (payload, n) ↦
        simp (publish, failures_at, successes_at, n)
          (either_branch
            (λ (r : Publisher × Option Error).
              Counted (failures_of d) (successes_of d) p (after_publish r last).0)
            p.connected (λ e. publish_raw-Counted now _ d p last has) (λ e. cc))
  ]

  publish_rest-Counted :
      (now : ℕ) (dps : List (DataPoint × Delivery)) (p : Publisher) (last : Option Error)
      → p.connected ≡ true
      → p.has_client ≡ true
      → Counted
          (failures to_json dps)
          (successes to_json dps)
          p
          (publish_rest to_json now dps (p, last)).0
  unfolding publish_rest
  publish_rest-Counted now [] p last on has = record {
    connected = refl;
    has_client = refl;
    failed = omega arith;
    published = omega arith;
  }
  publish_rest-Counted now ((dp, d) ∷ rest) p last on has =
      let r = after_publish (publish to_json d now dp p) last in
      let one = publish-Counted now dp d p last on has in
      let more =
        publish_rest-Counted now rest r.0 r.1 (one.connected ∙ on) (one.has_client ∙ has) in
      record {
        connected = more.connected ∙ one.connected;
        has_client = more.has_client ∙ one.has_client;
        failed = omega (arith, one.failed, more.failed);
        published = omega (arith, one.published, more.published);
      }

  -- A batch that is published over a connection adds one to the messages published for each point
  -- that the broker takes; to the failures it adds two for each point that the broker does not take,
  -- and one for each that cannot be written as JSON.
  pub messages_failed-publish_batch :
      (now : ℕ) (dps : List (DataPoint × Delivery)) (p : Publisher)
      → p.connected ≡ true
      → p.has_client ≡ true
      → ((publish_batch to_json now dps p).0.stats.messages_failed
          ≡ p.stats.messages_failed + failures to_json dps)
        × ((publish_batch to_json now dps p).0.stats.messages_published
            ≡ p.stats.messages_published + successes to_json dps)
  unfolding publish_batch
  messages_failed-publish_batch now dps p on has =
      let c = publish_rest-Counted now dps p none on has in (c.failed, c.published)
