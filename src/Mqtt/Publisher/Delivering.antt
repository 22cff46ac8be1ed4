-- ===== src/Mqtt/Publisher/Delivering.antt =====
-- What internal/adapter/mqtt/publisher.go sends and counts while it is connected.
use protocol_gateway.Prelude.{
  ℕ, ◌≤◌, ◌≡◌, refl, sym, ◌∙◌, true, List, [], ◌∷◌, ◌++◌, Option, length, either_branch, arith,
}
use mathlib.Core.List.{append_assoc, append-nil}
use protocol_gateway.Domain.Errors.{Error}
use protocol_gateway.Mqtt.Publisher.{
  BufferedMessage, Publisher, Delivery, publish_raw, settle, count_failed, count_published,
  drain_next, drain_buffer,
}

-- The client gets this message; the buffer is left alone.
pub record Gave (msg : BufferedMessage) (p q : Publisher) : Type 0 where
  pub config : q.config ≡ p.config
  pub connected : q.connected ≡ p.connected
  pub has_client : q.has_client ≡ p.has_client
  pub buffer : q.message_buffer ≡ p.message_buffer
  pub sent : q.sent ≡ p.sent ++ msg ∷ []

settle-Gave :
    (d : Delivery) (now : ℕ) (msg : BufferedMessage) (p : Publisher)
    → Gave msg p (settle d now msg (record p { sent = p.sent ++ msg ∷ [] })).0
unfolding settle count_failed count_published
settle-Gave Delivery.delivered now msg p = record {
  config = refl;
  connected = refl;
  has_client = refl;
  buffer = refl;
  sent = refl;
}
settle-Gave Delivery.refused now msg p = record {
  config = refl;
  connected = refl;
  has_client = refl;
  buffer = refl;
  sent = refl;
}
settle-Gave Delivery.timed_out now msg p = record {
  config = refl;
  connected = refl;
  has_client = refl;
  buffer = refl;
  sent = refl;
}
settle-Gave Delivery.cancelled now msg p = record {
  config = refl;
  connected = refl;
  has_client = refl;
  buffer = refl;
  sent = refl;
}

pub publish_raw-Gave :
    (d : Delivery) (now : ℕ) (msg : BufferedMessage) (p : Publisher)
    → p.has_client ≡ true
    → Gave msg p (publish_raw d now msg p).0
unfolding publish_raw
publish_raw-Gave d now msg p has =
    either_branch (λ (r : Publisher × Option Error). Gave msg p r.0) p.has_client
      (λ e. settle-Gave d now msg p) (λ e. cc)

drain_next-Gave :
    (d : Delivery) (now : ℕ) (msg : BufferedMessage) (rest : List BufferedMessage) (p : Publisher)
    → p.has_client ≡ true
    → p.connected ≡ true
    → Gave msg (record p { message_buffer = rest }) (drain_next d now (msg ∷ rest) p)
unfolding drain_next
drain_next-Gave d now msg rest p has on =
    either_branch (Gave msg (record p { message_buffer = rest })) p.connected
      (λ e. publish_raw-Gave d now msg _ has) (λ e. cc)

drained :
    (now : ℕ) (ds : List Delivery) (msgs : List BufferedMessage) (p : Publisher)
    → p.message_buffer ≡ msgs
    → p.has_client ≡ true
    → p.connected ≡ true
    → length msgs ≤ length ds
    → ((drain_buffer now ds p).message_buffer ≡ [])
      × ((drain_buffer now ds p).sent ≡ p.sent ++ msgs)
unfolding drain_buffer drain_next
drained now [] [] p e has on h = (e, sym (append-nil p.sent))
drained now [] (msg ∷ rest) p e has on h = absurd (omega (arith, h))
drained now (d ∷ ds) [] p e has on h = simp e (drained now ds [] p e has on (omega arith))
drained now (d ∷ ds) (msg ∷ rest) p e has on h =
    let g = drain_next-Gave d now msg rest p has on in
    let (empty, all) =
      drained now ds rest (drain_next d now (msg ∷ rest) p) g.buffer (g.has_client ∙ has)
        (g.connected ∙ on) (omega (arith, h)) in
    simp e (empty, all ∙ rw g.sent (append_assoc p.sent (msg ∷ []) rest))

-- While it is connected, drainBuffer gives the client every message of the buffer, the oldest first,
-- and leaves the buffer empty, if its time is enough for as many messages as the buffer holds; no
-- matter how the broker answers.
pub drain_buffer-sent :
    (now : ℕ) (ds : List Delivery) (p : Publisher)
    → p.has_client ≡ true
    → p.connected ≡ true
    → length p.message_buffer ≤ length ds
    → ((drain_buffer now ds p).message_buffer ≡ [])
      × ((drain_buffer now ds p).sent ≡ p.sent ++ p.message_buffer)
drain_buffer-sent now ds p has on h = drained now ds p.message_buffer p refl has on h
