-- ===== src/Mqtt/Publisher/Life.antt =====
-- Connections of internal/adapter/mqtt/publisher.go, and the steps of a publisher's life.
use protocol_gateway.Prelude.{
  ℕ, ◌+◌, ◌-◌, ◌≡◌, ◌<◌, Bool, true, false, List, Option, none, some, if◌then◌else◌, ◌||◌,
}
use protocol_gateway.Domain.Errors.{Error, mqtt_connection_failed, mqtt_not_connected}
use protocol_gateway.Domain.DataPoint.{DataPoint}
use protocol_gateway.Mqtt.Publisher.{
  Config, BufferedMessage, Publisher, Delivery, new_publisher, publish, publish_batch, offer,
  drop_oldest, process_next, drain_buffer,
}

-- Connect, with what the broker answers. The client is replaced in either case.
unfoldable pub connect : Bool → Publisher → Publisher × Option Error
connect answered p = (
  record p {
    has_client = true;
    connected = p.connected || answered;
    stopping = if answered then false else p.stopping;
    processors = if answered then p.processors + 1 else p.processors;
  },
  if answered then none else some mqtt_connection_failed,
)

-- Disconnect, up to the wait for processBuffer, and after it.
unfoldable pub request_disconnect : Publisher → Publisher
request_disconnect p = record p { stopping = true }

unfoldable pub end_disconnect : Publisher → Publisher
end_disconnect p = record p { connected = false }

-- processBuffer finds `done` closed.
unfoldable pub finish : ℕ → List Delivery → Publisher → Publisher
finish now ds p = record (drain_buffer now ds p) { processors = p.processors - 1 }

-- onConnect, onConnectionLost and onReconnecting.
unfoldable pub on_connect : Publisher → Publisher
on_connect p = record p { connected = true; reconnecting = false }

unfoldable pub on_connection_lost : Publisher → Publisher
on_connection_lost p = record p { connected = false }

unfoldable pub on_reconnecting : Publisher → Publisher
on_reconnecting p = record p {
  reconnecting = true;
  stats = record p.stats { reconnect_count = p.stats.reconnect_count + 1 };
}

-- HealthCheck.
unfoldable pub health_check : Publisher → Option Error
health_check p = if p.connected then none else some mqtt_not_connected

-- A step of a caller, of processBuffer or of the client. A buffer that is full takes a receive and a
-- send, which are steps of their own where something runs in between.
pub data Step : Publisher → Publisher → Type 0 where
  published :
      {p : Publisher} (to_json : DataPoint → Option (List ℕ)) (d : Delivery) (now : ℕ)
      (dp : DataPoint)
      → Step p (publish to_json d now dp p).0
  batched :
      {p : Publisher} (to_json : DataPoint → Option (List ℕ)) (now : ℕ)
      (dps : List (DataPoint × Delivery))
      → Step p (publish_batch to_json now dps p).0
  dropped : {p : Publisher} → Step p (drop_oldest p)
  offered : {p : Publisher} (msg : BufferedMessage) → Step p (offer msg p).0
  processed :
      {p : Publisher} (d : Delivery) (now : ℕ)
      → 0 < p.processors
      → Step p (process_next d now p.message_buffer p)
  finished :
      {p : Publisher} (now : ℕ) (ds : List Delivery)
      → p.stopping ≡ true
      → 0 < p.processors
      → Step p (finish now ds p)
  joined : {p : Publisher} (answered : Bool) → Step p (connect answered p).0
  leaving : {p : Publisher} → Step p (request_disconnect p)
  left : {p : Publisher} → p.processors ≡ 0 → Step p (end_disconnect p)
  connected : {p : Publisher} → Step p (on_connect p)
  lost : {p : Publisher} → Step p (on_connection_lost p)
  retried : {p : Publisher} → Step p (on_reconnecting p)

pub data Reachable : Publisher → Type 0 where
  created : (c : Config) → Reachable (new_publisher c)
  then : {p q : Publisher} → Reachable p → Step p q → Reachable q
