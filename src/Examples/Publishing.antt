-- ===== src/Examples/Publishing.antt =====
-- A publisher with a buffer of two messages, which is without a connection for a time.
use protocol_gateway.Prelude.{
  zero, suc, ℕ, ◌+◌, ◌≡◌, refl, true, false, some, none, List, [], ◌∷◌, ◌++◌, Option, arith,
}
use protocol_gateway.Domain.Value.{Value}
use protocol_gateway.Domain.DataPoint.{DataPoint, Quality}
use protocol_gateway.Mqtt.Publisher.{
  Publisher, Delivery, new_publisher, publish_batch, publish, handle_message, BufferedMessage,
  buffer_bytes, message_of, offer, send_message, count_buffered, process_all,
}
use protocol_gateway.Mqtt.Publisher.Life.{Step, Reachable, connect, on_connect, on_connection_lost}
use protocol_gateway.Mqtt.Publisher.Buffer.{keep_last, messages}
use protocol_gateway.Mqtt.Publisher.Bounds.{Bounded}
use protocol_gateway.Mqtt.Publisher.Steps.{Reachable-Bounded}
use protocol_gateway.Mqtt.Publisher.Outage.{publish_batch-keep_last}
use protocol_gateway.Mqtt.Publisher.Waiting.{Outage, sent-outage}
use mathlib.Core.List.{Perm}
use protocol_gateway.Mqtt.Publisher.Batch.{failures, successes, messages_failed-publish_batch}

abbrev pub reading : DataPoint
reading = record {
  device_id = "pump";
  tag_id = "level";
  topic = "plant/level";
  value = Value.uint16 7;
  raw_value = Value.null;
  unit = "m";
  quality = Quality.good;
  priority = 0;
}

-- The second of four points cannot be written as JSON.
abbrev to_json : DataPoint → Option (List ℕ)
to_json dp = elim dp.priority [ zero ↦ some (55 ∷ []) | suc n ↦ none ]

abbrev batch : List (DataPoint × Delivery)
batch =
    (reading, Delivery.delivered)
    ∷ (record reading { priority = 1 }, Delivery.delivered)
    ∷ (record reading { topic = "plant/flow" }, Delivery.refused)
    ∷ (record reading { topic = "plant/alarm" }, Delivery.delivered)
    ∷ []

abbrev joined : Publisher
joined =
    (connect true (new_publisher (record { qos = 1; buffer_size = 2; retain_messages = false }))).0

abbrev cut_off : Publisher
cut_off = on_connection_lost joined

abbrev waiting : Publisher
waiting = (publish_batch to_json 9 batch cut_off).0

waiting-Reachable : Reachable waiting
waiting-Reachable =
    Reachable.then
      (Reachable.then
        (Reachable.then
          (Reachable.created (record { qos = 1; buffer_size = 2; retain_messages = false }))
          (Step.joined true))
        Step.lost)
      (Step.batched to_json 9 batch)

Reachable-Bounded_example : Bounded waiting
Reachable-Bounded_example = Reachable-Bounded waiting-Reachable

publish_batch-keep_last_example :
    (waiting.message_buffer
      ≡ keep_last cut_off.config.buffer_size
          (cut_off.message_buffer ++ messages cut_off.config to_json batch))
    × (waiting.sent ≡ cut_off.sent)
unfolding connect on_connection_lost new_publisher
publish_batch-keep_last_example =
    publish_batch-keep_last to_json 9 batch cut_off (omega arith) (omega arith) refl

-- A second batch is published while processBuffer has the message of the first one in its hand, and
-- puts it back behind.
abbrev first : List (DataPoint × Delivery)
first = (reading, Delivery.delivered) ∷ []

abbrev second : List (DataPoint × Delivery)
second = (record reading { topic = "plant/flow" }, Delivery.delivered) ∷ []

abbrev begun : Publisher
begun = (publish_batch to_json 9 first cut_off).0

abbrev emptied : Publisher
emptied = record begun { message_buffer = [] }

abbrev in_the_hand : BufferedMessage
in_the_hand = message_of cut_off.config reading (55 ∷ [])

abbrev refilled : Publisher
refilled = (publish_batch to_json 9 second emptied).0

abbrev settled : Publisher
settled = handle_message Delivery.delivered 9 in_the_hand refilled

abbrev taken_up : List BufferedMessage
taken_up = ([] ++ messages cut_off.config to_json first) ++ messages emptied.config to_json second

outage : Outage to_json cut_off taken_up none settled
unfolding connect on_connection_lost new_publisher publish_batch publish buffer_bytes offer
    send_message count_buffered
outage =
    Outage.handled
      (Outage.batched (Outage.received (Outage.batched Outage.begun 9 first) refl) 9 second)
      Delivery.delivered 9

sent-outage_example :
    (got : List BufferedMessage) × ((process_all 10
        (Delivery.delivered ∷ Delivery.refused ∷ [])
        (on_connect settled)).sent
      ≡ cut_off.sent ++ got)
    × Perm got (cut_off.message_buffer ++ taken_up)
unfolding connect on_connection_lost new_publisher publish_batch publish buffer_bytes offer
    send_message count_buffered
sent-outage_example =
    sent-outage to_json cut_off taken_up settled outage refl refl (omega arith) (omega arith) 10
      (Delivery.delivered ∷ Delivery.refused ∷ []) (omega arith)

messages_failed-publish_batch_example :
    ((publish_batch to_json 9 batch joined).0.stats.messages_failed
      ≡ joined.stats.messages_failed + failures to_json batch)
    × ((publish_batch to_json 9 batch joined).0.stats.messages_published
        ≡ joined.stats.messages_published + successes to_json batch)
unfolding connect new_publisher
messages_failed-publish_batch_example =
    messages_failed-publish_batch to_json 9 batch joined refl refl

counts : (failures to_json batch ≡ 3) × (successes to_json batch ≡ 2)
counts = (refl, refl)
