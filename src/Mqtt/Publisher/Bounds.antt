-- ===== src/Mqtt/Publisher/Bounds.antt =====
-- What internal/adapter/mqtt/publisher.go holds at most, through a publisher's life.
use protocol_gateway.Prelude.{
  ℕ, ◌+◌, ◌≤◌, ◌<◌, ◌≡◌, refl, ap, List, [], ◌∷◌, ◌++◌, Option, none, some, Option-cases, inl, inr,
  length, length-append, ltb, either_branch, arith,
}
use protocol_gateway.Domain.Errors.{Error}
use protocol_gateway.Domain.DataPoint.{DataPoint}
use protocol_gateway.Mqtt.Topics.{max_tracked_topics, length-record_topic_publish}
use protocol_gateway.Mqtt.Publisher.{
  BufferedMessage, Publisher, Delivery, publish, publish_rest, publish_raw, settle, after_publish,
  offer, drop_oldest, buffer_bytes, send_message, count_buffered, count_failed, count_published,
  process_next, handle_message, drain_next, drain_buffer, publish_batch,
}

-- `settled`: what the client was given is counted as published or as failed.
pub record Bounded (p : Publisher) : Type 0 where
  pub room : 0 < p.config.buffer_size
  pub buffered : length p.message_buffer ≤ p.config.buffer_size
  pub tracked : length p.topic_stats ≤ max_tracked_topics
  pub settled : length p.sent ≤ p.stats.messages_published + p.stats.messages_failed

-- The publisher of a result.
abbrev BoundedAfter : Publisher × Option Error → Type 0
BoundedAfter r = Bounded r.0

-- A failure, after which the client may have been given one message more.
count_failed-Bounded :
    (p : Publisher) (given : List BufferedMessage)
    → length given ≤ length p.sent + 1
    → Bounded p
    → Bounded (count_failed (record p { sent = given }))
unfolding count_failed
count_failed-Bounded p given one b = record {
  room = b.room;
  buffered = b.buffered;
  tracked = b.tracked;
  settled = omega (arith, b.settled, one);
}

settle-Bounded :
    (d : Delivery) (now : ℕ) (msg : BufferedMessage) (p : Publisher)
    → Bounded p
    → Bounded (settle d now msg (record p { sent = p.sent ++ msg ∷ [] })).0
unfolding settle count_published
settle-Bounded Delivery.delivered now msg p b = record {
  room = b.room;
  buffered = b.buffered;
  tracked = length-record_topic_publish msg.topic (length msg.payload) now p.topic_stats b.tracked;
  settled = omega (arith, b.settled, length-append p.sent (msg ∷ []));
}
settle-Bounded Delivery.refused now msg p b =
    count_failed-Bounded p _ (omega (arith, length-append p.sent (msg ∷ []))) b
settle-Bounded Delivery.timed_out now msg p b =
    count_failed-Bounded p _ (omega (arith, length-append p.sent (msg ∷ []))) b
settle-Bounded Delivery.cancelled now msg p b =
    count_failed-Bounded p _ (omega (arith, length-append p.sent (msg ∷ []))) b

publish_raw-Bounded :
    (d : Delivery) (now : ℕ) (msg : BufferedMessage) (p : Publisher)
    → Bounded p
    → Bounded (publish_raw d now msg p).0
unfolding publish_raw
publish_raw-Bounded d now msg p b =
    either_branch BoundedAfter p.has_client (λ e. settle-Bounded d now msg p b) (λ e. b)

pub offer-Bounded : (msg : BufferedMessage) (p : Publisher) → Bounded p → Bounded (offer msg p).0
unfolding offer send_message count_buffered
offer-Bounded msg p b = record {
  room = ground (arith, b.room);
  buffered = ground (arith, b.buffered, length-append p.message_buffer (msg ∷ []));
  tracked = ground (arith, b.tracked);
  settled = ground (arith, b.settled);
}

send_message-Bounded :
    (msg : BufferedMessage) (p : Publisher) → Bounded p → Bounded (send_message msg p)
unfolding send_message
send_message-Bounded msg p b = record {
  room = b.room;
  buffered = ground (arith, b.buffered, length-append p.message_buffer (msg ∷ []));
  tracked = b.tracked;
  settled = b.settled;
}

pub drop_oldest-Bounded : (p : Publisher) → Bounded p → Bounded (drop_oldest p)
unfolding drop_oldest
drop_oldest-Bounded p b = record {
  room = b.room;
  buffered = ground (arith, b.buffered);
  tracked = b.tracked;
  settled = b.settled;
}

buffer_bytes-Bounded :
    (msg : BufferedMessage) (p : Publisher) → Bounded p → Bounded (buffer_bytes msg p).0
unfolding buffer_bytes
buffer_bytes-Bounded msg p b =
    either_branch BoundedAfter (ltb (length p.message_buffer) p.config.buffer_size)
      (λ e. offer-Bounded msg p b)
      (λ e. offer-Bounded msg (drop_oldest p) (drop_oldest-Bounded p b))

pub publish-Bounded :
    (to_json : DataPoint → Option (List ℕ)) (d : Delivery) (now : ℕ) (dp : DataPoint)
    (p : Publisher)
    → Bounded p
    → Bounded (publish to_json d now dp p).0
unfolding publish
publish-Bounded to_json d now dp p b = elim (Option-cases (to_json dp)) [
  | inl n ↦ simp (publish, n) b
  | inr (payload, n) ↦
      simp (publish, n)
        (either_branch BoundedAfter p.connected (λ e. publish_raw-Bounded d now _ p b)
          (λ e. buffer_bytes-Bounded _ p b))
]

after_publish-Bounded :
    (r : Publisher × Option Error) (last : Option Error)
    → Bounded r.0
    → Bounded (after_publish r last).0
unfolding after_publish count_failed
after_publish-Bounded (p, none) last b = b
after_publish-Bounded (p, some e) last b = count_failed-Bounded p p.sent (omega arith) b

publish_rest-Bounded :
    (to_json : DataPoint → Option (List ℕ)) (now : ℕ) (dps : List (DataPoint × Delivery))
    (r : Publisher × Option Error)
    → Bounded r.0
    → Bounded (publish_rest to_json now dps r).0
unfolding publish_rest
publish_rest-Bounded to_json now [] r b = b
publish_rest-Bounded to_json now ((dp, d) ∷ rest) r b =
    publish_rest-Bounded to_json now rest _
      (after_publish-Bounded _ r.1 (publish-Bounded to_json d now dp r.0 b))

pub publish_batch-Bounded :
    (to_json : DataPoint → Option (List ℕ)) (now : ℕ) (dps : List (DataPoint × Delivery))
    (p : Publisher)
    → Bounded p
    → Bounded (publish_batch to_json now dps p).0
unfolding publish_batch
publish_batch-Bounded to_json now dps p b = publish_rest-Bounded to_json now dps (p, none) b

-- The buffer without its oldest message.
shorter :
    (msg : BufferedMessage) (rest : List BufferedMessage) (p : Publisher)
    → p.message_buffer ≡ msg ∷ rest
    → Bounded p
    → Bounded (record p { message_buffer = rest })
shorter msg rest p e b = record {
  room = b.room;
  buffered = omega (arith, b.buffered, ap length e);
  tracked = b.tracked;
  settled = b.settled;
}

pub process_next-Bounded :
    (d : Delivery) (now : ℕ) (msgs : List BufferedMessage) (p : Publisher)
    → p.message_buffer ≡ msgs
    → Bounded p
    → Bounded (process_next d now msgs p)
unfolding process_next handle_message
process_next-Bounded d now [] p e b = b
process_next-Bounded d now (msg ∷ rest) p e b =
    let q : Publisher = record p { message_buffer = rest } in
    let s = shorter msg rest p e b in
    either_branch Bounded p.connected (λ c. publish_raw-Bounded d now msg q s)
      (λ c. send_message-Bounded msg q s)

drain_next-Bounded :
    (d : Delivery) (now : ℕ) (msgs : List BufferedMessage) (p : Publisher)
    → p.message_buffer ≡ msgs
    → Bounded p
    → Bounded (drain_next d now msgs p)
unfolding drain_next
drain_next-Bounded d now [] p e b = b
drain_next-Bounded d now (msg ∷ rest) p e b =
    let s = shorter msg rest p e b in
    either_branch Bounded p.connected (λ c. publish_raw-Bounded d now msg _ s) (λ c. s)

pub drain_buffer-Bounded :
    (now : ℕ) (ds : List Delivery) (p : Publisher) → Bounded p → Bounded (drain_buffer now ds p)
unfolding drain_buffer
drain_buffer-Bounded now [] p b = b
drain_buffer-Bounded now (d ∷ ds) p b =
    drain_buffer-Bounded now ds _ (drain_next-Bounded d now p.message_buffer p refl b)
