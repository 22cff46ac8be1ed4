-- ===== src/Mqtt/Publisher/Steps.antt =====
-- The life of a publisher of internal/adapter/mqtt/publisher.go.
use protocol_gateway.Prelude.{◌≡◌, refl, arith, ap}
use protocol_gateway.Mqtt.Publisher.{
  Publisher, new_publisher, Config, List, BufferedMessage, String, TopicStat, ℕ,
}
use protocol_gateway.Mqtt.Publisher.Bounds.{
  Bounded, offer-Bounded, drop_oldest-Bounded, publish-Bounded, publish_batch-Bounded,
  process_next-Bounded, drain_buffer-Bounded,
}
use protocol_gateway.Mqtt.Publisher.Life.{
  Step, Reachable, connect, request_disconnect, end_disconnect, finish, on_connect,
  on_connection_lost, on_reconnecting,
}

-- What the bounds speak of.
abbrev contents :
    Publisher
    → Config × List BufferedMessage × List (String × TopicStat) × List BufferedMessage × ℕ × ℕ
contents p = (
  p.config, p.message_buffer, p.topic_stats, p.sent, p.stats.messages_published,
  p.stats.messages_failed,
)

-- A change of the connection.
turned : {p : Publisher} (q : Publisher) → contents q ≡ contents p → Bounded p → Bounded q
turned q e b =
    let config = ap (λ w. w.0) e in
    let buffer = ap (λ w. w.1) e in
    let topics = ap (λ w. w.2) e in
    let sent = ap (λ w. w.3) e in
    let published = ap (λ w. w.4) e in
    let failed = ap (λ w. w.5) e in
    record {
      room = rw config b.room;
      buffered = rw (config, buffer) b.buffered;
      tracked = rw topics b.tracked;
      settled = rw (sent, published, failed) b.settled;
    }

Step-Bounded : {p q : Publisher} → Bounded p → Step p q → Bounded q
unfolding connect request_disconnect end_disconnect finish on_connect on_connection_lost
    on_reconnecting
Step-Bounded {p} b (Step.published to_json d now dp) = publish-Bounded to_json d now dp p b
Step-Bounded {p} b (Step.batched to_json now dps) = publish_batch-Bounded to_json now dps p b
Step-Bounded {p} b Step.dropped = drop_oldest-Bounded p b
Step-Bounded {p} b (Step.offered msg) = offer-Bounded msg p b
Step-Bounded {p} b (Step.processed d now h) = process_next-Bounded d now p.message_buffer p refl b
Step-Bounded {p} b (Step.finished now ds h k) = turned _ refl (drain_buffer-Bounded now ds p b)
Step-Bounded b (Step.joined answered) = turned _ refl b
Step-Bounded b Step.leaving = turned _ refl b
Step-Bounded b (Step.left h) = turned _ refl b
Step-Bounded b Step.connected = turned _ refl b
Step-Bounded b Step.lost = turned _ refl b
Step-Bounded b Step.retried = turned _ refl b

-- In every state a publisher reaches, the buffer holds no more messages than its size, which is not
-- zero; at most 10000 topics are tracked; and the messages that were given to the client of the
-- broker are no more than those counted as published or failed.
pub Reachable-Bounded : {p : Publisher} → Reachable p → Bounded p
unfolding new_publisher
Reachable-Bounded (Reachable.created c) = record {
  room = ground arith;
  buffered = omega arith;
  tracked = omega arith;
  settled = omega arith;
}
Reachable-Bounded (Reachable.then r s) = Step-Bounded (Reachable-Bounded r) s
