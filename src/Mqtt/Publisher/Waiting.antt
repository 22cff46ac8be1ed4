-- ===== src/Mqtt/Publisher/Waiting.antt =====
-- What internal/adapter/mqtt/publisher.go keeps while there is no connection and processBuffer goes
-- on, and what the broker gets of it afterwards.
use mathlib.Core.List.{Perm, append_assoc, append-nil, perm_append_singleton}
use protocol_gateway.Prelude.{
  ℕ, ◌≤◌, ◌<◌, ◌≡◌, refl, sym, ap, ◌∙◌, true, false, List, [], ◌∷◌, ◌++◌, Option, none, some,
  length, length-append, ltb, arith, either_branch,
}
use protocol_gateway.Domain.DataPoint.{DataPoint}
use protocol_gateway.Mqtt.Publisher.{
  Config, BufferedMessage, Publisher, Delivery, publish_batch, send_message, handle_message,
  process_next, process_all,
}
use protocol_gateway.Prelude.Flat.{length-perm}
use protocol_gateway.Mqtt.Publisher.Life.{on_connect}
use protocol_gateway.Mqtt.Publisher.Buffer.{keep_last_all, messages}
use protocol_gateway.Mqtt.Publisher.Delivering.{Gave, publish_raw-Gave}
use protocol_gateway.Mqtt.Publisher.Outage.{publish_batch-Took}
use mathlib.Core.List.Perm

-- The message that processBuffer has received and not yet handled.
abbrev in_hand : Option BufferedMessage → List BufferedMessage
in_hand none = []
in_hand (some msg) = msg ∷ []

-- An outage that begins at p: batches are published, with these messages in all, and processBuffer
-- receives messages and handles them, in any order.
pub data Outage (to_json : DataPoint → Option (List ℕ)) (p : Publisher)
    : List BufferedMessage → Option BufferedMessage → Publisher → Type 0 where
  begun : Outage to_json p [] none p
  batched :
      {ms : List BufferedMessage} {o : Option BufferedMessage} {q : Publisher}
      → Outage to_json p ms o q
      → (now : ℕ) (dps : List (DataPoint × Delivery))
      → Outage to_json p (ms ++ messages q.config to_json dps) o (publish_batch to_json now dps q).0
  received :
      {ms rest : List BufferedMessage} {msg : BufferedMessage} {q : Publisher}
      → Outage to_json p ms none q
      → q.message_buffer ≡ msg ∷ rest
      → Outage to_json p ms (some msg) (record q { message_buffer = rest })
  handled :
      {ms : List BufferedMessage} {msg : BufferedMessage} {q : Publisher}
      → Outage to_json p ms (some msg) q
      → (d : Delivery) (now : ℕ) → Outage to_json p ms none (handle_message d now msg q)

-- Nothing is lost or sent meanwhile.
record Waits (p : Publisher) (ms : List BufferedMessage) (o : Option BufferedMessage)
    (q : Publisher) : Type 0 where
  config : q.config ≡ p.config
  connected : q.connected ≡ false
  has_client : q.has_client ≡ p.has_client
  sent : q.sent ≡ p.sent
  held : Perm (in_hand o ++ q.message_buffer) (p.message_buffer ++ ms)

module _ (to_json : DataPoint → Option (List ℕ)) (p : Publisher)
    (room : 0 < p.config.buffer_size) where
  batched-Waits :
      (now : ℕ) (dps : List (DataPoint × Delivery)) (ms : List BufferedMessage)
      (o : Option BufferedMessage) (q : Publisher)
      → length (p.message_buffer ++ (ms ++ messages q.config to_json dps)) ≤ p.config.buffer_size
      → Waits p ms o q
      → Waits p (ms ++ messages q.config to_json dps) o (publish_batch to_json now dps q).0
  batched-Waits now dps ms o q few w =
      let new = messages q.config to_json dps in
      let both : Perm (in_hand o ++ (q.message_buffer ++ new)) (p.message_buffer ++ (ms ++ new)) =
        rw (← append_assoc (in_hand o) q.message_buffer new, ← append_assoc p.message_buffer ms new)
          (Perm.append_right new w.held) in
      let size = ap (λ (c : Config). c.buffer_size) w.config in
      let held_few = length-perm both in
      let in_hand_length = length-append (in_hand o) (q.message_buffer ++ new) in
      let new_length = length-append q.message_buffer new in
      let whole : length (q.message_buffer ++ new) ≤ q.config.buffer_size =
        omega (arith, held_few, in_hand_length, few, size) in
      let fits : length q.message_buffer ≤ q.config.buffer_size =
        omega (arith, whole, new_length) in
      let t = publish_batch-Took to_json now dps q (rw w.config room) fits w.connected in
      record {
        config = t.config ∙ w.config;
        connected = t.connected ∙ w.connected;
        has_client = t.has_client ∙ w.has_client;
        sent = t.sent ∙ w.sent;
        held =
            rw (t.buffer, keep_last_all q.config.buffer_size (q.message_buffer ++ new) whole) both;
      }

  handled-Waits :
      (d : Delivery) (now : ℕ) (ms : List BufferedMessage) (msg : BufferedMessage) (q : Publisher)
      → length (p.message_buffer ++ ms) ≤ p.config.buffer_size
      → Waits p ms (some msg) q
      → Waits p ms none (handle_message d now msg q)
  unfolding handle_message send_message
  handled-Waits d now ms msg q few w =
      let place : ltb (length q.message_buffer) q.config.buffer_size ≡ true =
        rw w.config (ground (arith, length-perm w.held, few)) in
      simp (w.connected, place)
        (record {
          config = w.config;
          connected = refl;
          has_client = w.has_client;
          sent = w.sent;
          held = Perm.trans (perm_append_singleton msg q.message_buffer) w.held;
        })

  Outage-Waits :
      {ms : List BufferedMessage} {o : Option BufferedMessage} {q : Publisher}
      → p.connected ≡ false
      → Outage to_json p ms o q
      → length (p.message_buffer ++ ms) ≤ p.config.buffer_size
      → Waits p ms o q
  Outage-Waits off Outage.begun few = record {
    config = refl;
    connected = off;
    has_client = refl;
    sent = refl;
    held = rw (append-nil p.message_buffer) (Perm.refl p.message_buffer);
  }
  Outage-Waits off (Outage.batched {ms} {o} {q} w now dps) few =
      let new = messages q.config to_json dps in
      let fewer : length (p.message_buffer ++ ms) ≤ p.config.buffer_size = omega (
        arith,
        few,
        length-append p.message_buffer (ms ++ new),
        length-append ms new,
        length-append p.message_buffer ms,
      ) in
      batched-Waits now dps ms o q few (Outage-Waits off w fewer)
  Outage-Waits off (Outage.received {ms} {rest} {msg} {q} w e) few =
      let v = Outage-Waits off w few in
      record {
        config = v.config;
        connected = v.connected;
        has_client = v.has_client;
        sent = v.sent;
        held = rw e at v.held;
      }
  Outage-Waits off (Outage.handled {ms} {msg} {q} w d now) few =
      handled-Waits d now ms msg q few (Outage-Waits off w few)

process_next-Gave :
    (d : Delivery) (now : ℕ) (msg : BufferedMessage) (rest : List BufferedMessage) (p : Publisher)
    → p.has_client ≡ true
    → p.connected ≡ true
    → Gave msg (record p { message_buffer = rest }) (process_next d now (msg ∷ rest) p)
unfolding process_next handle_message
process_next-Gave d now msg rest p has on =
    either_branch (Gave msg (record p { message_buffer = rest })) p.connected
      (λ e. publish_raw-Gave d now msg _ has) (λ e. cc)

sent-process_all :
    (now : ℕ) (ds : List Delivery) (msgs : List BufferedMessage) (p : Publisher)
    → p.message_buffer ≡ msgs
    → p.has_client ≡ true
    → p.connected ≡ true
    → length msgs ≤ length ds
    → (process_all now ds p).sent ≡ p.sent ++ msgs
unfolding process_all process_next
sent-process_all now [] [] p e has on h = sym (append-nil p.sent)
sent-process_all now [] (msg ∷ rest) p e has on h = absurd (omega (arith, h))
sent-process_all now (d ∷ ds) [] p e has on h =
    simp e (sent-process_all now ds [] p e has on (omega arith))
sent-process_all now (d ∷ ds) (msg ∷ rest) p e has on h =
    let g = process_next-Gave d now msg rest p has on in
    simp e (
      sent-process_all now ds rest (process_next d now (msg ∷ rest) p) g.buffer (g.has_client ∙ has)
        (g.connected ∙ on) (omega (arith, h))
      ∙ rw g.sent (append_assoc p.sent (msg ∷ []) rest))

-- An outage loses nothing that the buffer has room for. A publisher with a client and a buffer that is
-- not of size zero has no connection; meanwhile batches are published, each with nothing in between
-- its points, and processBuffer, which is not stopped, receives messages and puts them back, in any
-- order. If the messages that the buffer held and those of the batches are together no more than its
-- places, and processBuffer has none in its hand when the connection is there again, then with as many
-- iterations, and no matter how the broker answers, the client gets all of them after what it had
-- before, each as often as it was there, though perhaps in another order.
pub sent-outage :
    (to_json : DataPoint → Option (List ℕ)) (p : Publisher) (ms : List BufferedMessage)
    (q : Publisher)
    → Outage to_json p ms none q
    → p.connected ≡ false
    → p.has_client ≡ true
    → 0 < p.config.buffer_size
    → length (p.message_buffer ++ ms) ≤ p.config.buffer_size
    → (now : ℕ) (ds : List Delivery) → length (p.message_buffer ++ ms) ≤ length ds
    → (got : List BufferedMessage) × ((process_all now ds (on_connect q)).sent ≡ p.sent ++ got)
      × Perm got (p.message_buffer ++ ms)
unfolding on_connect
sent-outage to_json p ms q outage off has room few now ds time =
    let w = Outage-Waits to_json p room off outage few in
    let enough : length q.message_buffer ≤ length ds = omega (arith, length-perm w.held, time) in
    (
      q.message_buffer,
      sent-process_all now ds q.message_buffer (on_connect q) refl (w.has_client ∙ has) refl enough
          ∙ ap (λ (xs : List BufferedMessage). xs ++ q.message_buffer) w.sent,
      w.held,
    )
