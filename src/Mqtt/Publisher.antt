-- ===== src/Mqtt/Publisher.antt =====
-- internal/adapter/mqtt/publisher.go. The buffer's channel is a list, its oldest message first; a
-- function is what runs between two of its operations on the channel, or the whole call where
-- nothing else runs. Counters do not wrap around.
pub mod Buffer
pub mod Outage
pub mod Waiting
pub mod Bounds
pub mod Steps
pub mod Delivering
pub mod Batch
pub mod Life
use protocol_gateway.Prelude.{
  ℕ, zero, suc, ◌+◌, ◌-◌, Bool, true, false, String, List, [], ◌∷◌, ◌++◌, Option, none, some,
  length, ltb, if◌then◌else◌, ◌==◌,
}
use protocol_gateway.Domain.Errors.{
  Error, external, mqtt_connection_failed, mqtt_not_connected, mqtt_publish_failed,
  buffer_contention,
}
use protocol_gateway.Domain.DataPoint.{DataPoint}
use protocol_gateway.Mqtt.Topics.{TopicStat, record_topic_publish}

-- The fields of Config that the publisher reads after it is connected.
pub record Config : Type 0 where
  pub qos : ℕ
  pub buffer_size : ℕ
  pub retain_messages : Bool

-- The bytes of the payload are numbers.
pub record BufferedMessage : Type 0 where
  pub topic : String
  pub payload : List ℕ
  pub qos : ℕ
  pub retained : Bool

pub record PublisherStats : Type 0 where
  pub messages_published : ℕ
  pub messages_failed : ℕ
  pub messages_buffered : ℕ
  pub bytes_sent : ℕ
  pub reconnect_count : ℕ

-- `stopping` is the closed channel `done`, `processors` are the goroutines of processBuffer, and
-- `sent` is what the client of the broker was given.
pub record Publisher : Type 0 where
  pub config : Config
  pub has_client : Bool
  pub connected : Bool
  pub reconnecting : Bool
  pub stopping : Bool
  pub processors : ℕ
  pub message_buffer : List BufferedMessage
  pub stats : PublisherStats
  pub topic_stats : List (String × TopicStat)
  pub sent : List BufferedMessage

-- NewPublisher.
unfoldable pub new_publisher : Config → Publisher
new_publisher c = record {
  config = record c { buffer_size = if c.buffer_size == 0 then 10000 else c.buffer_size };
  has_client = false;
  connected = false;
  reconnecting = false;
  stopping = false;
  processors = 0;
  message_buffer = [];
  stats = record {
    messages_published = 0;
    messages_failed = 0;
    messages_buffered = 0;
    bytes_sent = 0;
    reconnect_count = 0;
  };
  topic_stats = [];
  sent = [];
}

-- How the wait for the broker ends, in the select of publishRaw.
pub data Delivery : Type 0 where
  delivered refused timed_out cancelled : Delivery

unfoldable pub count_failed : Publisher → Publisher
count_failed p = record p {
  stats = record p.stats { messages_failed = p.stats.messages_failed + 1 };
}

unfoldable pub count_published : ℕ → BufferedMessage → Publisher → Publisher
count_published now msg p = record p {
  stats = record p.stats {
    messages_published = p.stats.messages_published + 1;
    bytes_sent = p.stats.bytes_sent + length msg.payload;
  };
  topic_stats = record_topic_publish msg.topic (length msg.payload) now p.topic_stats;
}

unfoldable pub settle : Delivery → ℕ → BufferedMessage → Publisher → Publisher × Option Error
unfolding count_failed count_published
settle Delivery.delivered now msg p = (count_published now msg p, none)
settle Delivery.refused now msg p = (count_failed p, some mqtt_publish_failed)
settle Delivery.timed_out now msg p = (count_failed p, some mqtt_publish_failed)
settle Delivery.cancelled now msg p = (count_failed p, some mqtt_publish_failed)

-- publishRaw.
unfoldable pub publish_raw : Delivery → ℕ → BufferedMessage → Publisher → Publisher × Option Error
unfolding settle
publish_raw d now msg p =
    if p.has_client
    then settle d now msg (record p { sent = p.sent ++ msg ∷ [] })
    else (p, some mqtt_not_connected)

-- A send on the channel that does not wait; it is dropped if there is no room.
unfoldable pub send_message : BufferedMessage → Publisher → Publisher
send_message msg p = record p {
  message_buffer =
      if ltb (length p.message_buffer) p.config.buffer_size
      then p.message_buffer ++ msg ∷ []
      else p.message_buffer;
}

unfoldable pub count_buffered : Publisher → Publisher
count_buffered p = record p {
  stats = record p.stats { messages_buffered = p.stats.messages_buffered + 1 };
}

-- A receive that does not wait.
unfoldable pub drop_oldest : Publisher → Publisher
drop_oldest p = record p { message_buffer = elim p.message_buffer [ [] ↦ [] | m ∷ rest ↦ rest ] }

-- One select of bufferMessage that sends.
unfoldable pub offer : BufferedMessage → Publisher → Publisher × Option Error
unfolding send_message count_buffered
offer msg p = (elim (ltb (length p.message_buffer) p.config.buffer_size) [
  | true ↦ (count_buffered (send_message msg p), none)
  | false ↦ (p, some buffer_contention)
])

-- bufferMessage, from its first select on, where nothing else runs in between.
unfoldable pub buffer_bytes : BufferedMessage → Publisher → Publisher × Option Error
unfolding offer drop_oldest
buffer_bytes msg p =
    if ltb (length p.message_buffer) p.config.buffer_size
    then offer msg p
    else offer msg (drop_oldest p)

-- The message of a data point. DataPoint.ToJSON is json.Marshal.
unfoldable pub message_of : Config → DataPoint → List ℕ → BufferedMessage
message_of c dp payload = record {
  topic = dp.topic;
  payload = payload;
  qos = c.qos;
  retained = c.retain_messages;
}

-- Publish, which buffers the point or publishes it.
unfoldable pub publish :
    (DataPoint → Option (List ℕ)) → Delivery → ℕ → DataPoint → Publisher → Publisher × Option Error
publish to_json d now dp p = elim (to_json dp) [
  | none ↦ (p, some (external "failed to serialize data point"))
  | some payload ↦
      if p.connected
      then publish_raw d now (message_of p.config dp payload) p
      else buffer_bytes (message_of p.config dp payload) p
]

-- The rest of an iteration of PublishBatch.
unfoldable pub after_publish : Publisher × Option Error → Option Error → Publisher × Option Error
unfolding count_failed
after_publish (p, none) last = (p, last)
after_publish (p, some e) last = (count_failed p, some e)

publish_rest :
    (DataPoint → Option (List ℕ))
    → ℕ
    → List (DataPoint × Delivery)
    → Publisher × Option Error
    → Publisher × Option Error
unfolding publish after_publish
publish_rest to_json now [] r = r
publish_rest to_json now ((dp, d) ∷ rest) r =
    publish_rest to_json now rest (after_publish (publish to_json d now dp r.0) r.1)

-- PublishBatch: each point comes with how its wait ends, should there be one.
unfoldable pub publish_batch :
    (DataPoint → Option (List ℕ))
    → ℕ
    → List (DataPoint × Delivery)
    → Publisher
    → Publisher × Option Error
unfolding publish_rest
publish_batch to_json now dps p = publish_rest to_json now dps (p, none)

-- One message of processBuffer: published, or put back behind the others.
unfoldable pub handle_message : Delivery → ℕ → BufferedMessage → Publisher → Publisher
unfolding publish_raw send_message
handle_message d now msg p = if p.connected then (publish_raw d now msg p).0 else send_message msg p

unfoldable pub process_next : Delivery → ℕ → List BufferedMessage → Publisher → Publisher
unfolding handle_message
process_next d now [] p = p
process_next d now (msg ∷ rest) p = handle_message d now msg (record p { message_buffer = rest })

-- The iterations of processBuffer, one for each delivery.
unfoldable pub process_all : ℕ → List Delivery → Publisher → Publisher
unfolding process_next
process_all now [] p = p
process_all now (d ∷ ds) p = process_all now ds (process_next d now p.message_buffer p)

-- One message of drainBuffer: published, or lost.
unfoldable pub drain_next : Delivery → ℕ → List BufferedMessage → Publisher → Publisher
unfolding publish_raw
drain_next d now [] p = p
drain_next d now (msg ∷ rest) p =
    if p.connected
    then (publish_raw d now msg (record p { message_buffer = rest })).0
    else record p { message_buffer = rest }

-- drainBuffer: it goes on until the buffer is empty, or the time it has is over. There is a
-- delivery for each message it has the time for.
unfoldable pub drain_buffer : ℕ → List Delivery → Publisher → Publisher
unfolding drain_next
drain_buffer now [] p = p
drain_buffer now (d ∷ ds) p = drain_buffer now ds (drain_next d now p.message_buffer p)
