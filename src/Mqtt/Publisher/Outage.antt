-- ===== src/Mqtt/Publisher/Outage.antt =====
-- What internal/adapter/mqtt/publisher.go keeps of the points that are published without a broker.
use protocol_gateway.Prelude.{
  ℕ, ◌≤◌, ◌<◌, ◌≡◌, refl, sym, ap, ◌∙◌, false, List, [], ◌∷◌, ◌++◌, Option, none, some,
  Option-cases, inl, inr, length, arith,
}
use mathlib.Core.List.{append_assoc, append-nil}
use protocol_gateway.Domain.Errors.{Error}
use protocol_gateway.Domain.DataPoint.{DataPoint}
use protocol_gateway.Mqtt.Publisher.{
  Config, BufferedMessage, Publisher, Delivery, message_of, publish, publish_batch, publish_rest,
  after_publish, buffer_bytes, count_failed,
}
use protocol_gateway.Mqtt.Publisher.Buffer.{
  keep_last, keep_last_all, length-keep_last, keep_last-append, messages,
  message_buffer-buffer_bytes,
}

-- The buffer takes these messages; nothing is published.
pub record Took (msgs : List BufferedMessage) (p q : Publisher) : Type 0 where
  pub config : q.config ≡ p.config
  pub connected : q.connected ≡ p.connected
  pub has_client : q.has_client ≡ p.has_client
  pub sent : q.sent ≡ p.sent
  pub buffer : q.message_buffer ≡ keep_last p.config.buffer_size (p.message_buffer ++ msgs)

module _ (p : Publisher) (room : 0 < p.config.buffer_size)
    (h : length p.message_buffer ≤ p.config.buffer_size) where
  buffer_bytes-Took : (msg : BufferedMessage) → Took (msg ∷ []) p (buffer_bytes msg p).0
  unfolding buffer_bytes
  buffer_bytes-Took msg = record {
    config = ground arith;
    connected = ground arith;
    has_client = ground arith;
    sent = ground arith;
    buffer = message_buffer-buffer_bytes msg p room h;
  }

  nothing-Took : Took [] p p
  nothing-Took = record {
    config = refl;
    connected = refl;
    has_client = refl;
    sent = refl;
    buffer =
        sym (
          rw (append-nil p.message_buffer) (keep_last_all p.config.buffer_size p.message_buffer h));
  }

  publish-Took :
      (to_json : DataPoint → Option (List ℕ)) (d : Delivery) (now : ℕ) (dp : DataPoint)
      → p.connected ≡ false
      → Took (messages p.config to_json ((dp, d) ∷ [])) p (publish to_json d now dp p).0
  unfolding publish
  publish-Took to_json d now dp off = elim (Option-cases (to_json dp)) [
    | inl n ↦ rw (publish, messages, n) nothing-Took
    | inr (payload, n) ↦
        simp (publish, messages, n, off) (buffer_bytes-Took (message_of p.config dp payload))
  ]

after_publish-Took :
    (msgs : List BufferedMessage) (p : Publisher) (r : Publisher × Option Error)
    (last : Option Error)
    → Took msgs p r.0
    → Took msgs p (after_publish r last).0
unfolding after_publish count_failed
after_publish-Took msgs p (q, none) last t = t
after_publish-Took msgs p (q, some e) last t = record {
  config = t.config;
  connected = t.connected;
  has_client = t.has_client;
  sent = t.sent;
  buffer = t.buffer;
}

Took-Took :
    (ms ns : List BufferedMessage) (p q r : Publisher)
    → Took ms p q
    → Took ns q r
    → Took (ms ++ ns) p r
Took-Took ms ns p q r t u = record {
  config = u.config ∙ t.config;
  connected = u.connected ∙ t.connected;
  has_client = u.has_client ∙ t.has_client;
  sent = u.sent ∙ t.sent;
  buffer =
      u.buffer
      ∙ rw (t.config, t.buffer)
          (keep_last-append p.config.buffer_size (p.message_buffer ++ ms) ns
            ∙ ap (keep_last p.config.buffer_size) (append_assoc p.message_buffer ms ns));
}

module _ (to_json : DataPoint → Option (List ℕ)) where
  messages-cons :
      (c : Config) (dp : DataPoint) (d : Delivery) (rest : List (DataPoint × Delivery))
      → messages c to_json ((dp, d) ∷ rest)
        ≡ messages c to_json ((dp, d) ∷ []) ++ messages c to_json rest
  messages-cons c dp d rest = elim (Option-cases (to_json dp)) [
    | inl n ↦ rw (messages, n) refl
    | inr (payload, n) ↦ rw (messages, n) refl
  ]

  publish_rest-Took :
      (now : ℕ) (dps : List (DataPoint × Delivery)) (p : Publisher) (last : Option Error)
      → 0 < p.config.buffer_size
      → length p.message_buffer ≤ p.config.buffer_size
      → p.connected ≡ false
      → Took (messages p.config to_json dps) p (publish_rest to_json now dps (p, last)).0
  unfolding publish_rest
  publish_rest-Took now [] p last room h off = nothing-Took p room h
  publish_rest-Took now ((dp, d) ∷ rest) p last room h off =
      let r = after_publish (publish to_json d now dp p) last in
      let t = after_publish-Took _ p _ last (publish-Took p room h to_json d now dp off) in
      let later =
        publish_rest-Took now rest r.0 r.1 (rw t.config room)
          (rw (t.buffer, t.config) (length-keep_last p.config.buffer_size _)) (t.connected ∙ off) in
      rw (messages-cons p.config dp d rest) (Took-Took _ _ p r.0 _ t (rw t.config at later))

  -- Of the points published in a batch without a connection, those that can be written as JSON go to
  -- the buffer: it holds the newest messages of those it held and of these, in their order, as many
  -- as it has places, and nothing is sent. The buffer has a place and holds no more than it can.
  pub publish_batch-keep_last :
      (now : ℕ) (dps : List (DataPoint × Delivery)) (p : Publisher)
      → 0 < p.config.buffer_size
      → length p.message_buffer ≤ p.config.buffer_size
      → p.connected ≡ false
      → ((publish_batch to_json now dps p).0.message_buffer
          ≡ keep_last p.config.buffer_size (p.message_buffer ++ messages p.config to_json dps))
        × ((publish_batch to_json now dps p).0.sent ≡ p.sent)
  unfolding publish_batch
  publish_batch-keep_last now dps p room h off =
      let t = publish_rest-Took now dps p none room h off in (t.buffer, t.sent)

  pub publish_batch-Took :
      (now : ℕ) (dps : List (DataPoint × Delivery)) (p : Publisher)
      → 0 < p.config.buffer_size
      → length p.message_buffer ≤ p.config.buffer_size
      → p.connected ≡ false
      → Took (messages p.config to_json dps) p (publish_batch to_json now dps p).0
  unfolding publish_batch
  publish_batch-Took now dps p room h off = publish_rest-Took now dps p none room h off
