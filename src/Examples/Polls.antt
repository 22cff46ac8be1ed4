-- ===== src/Examples/Polls.antt =====
-- A poll of the pump that reads a good point and a bad one, and the topics of its tags.
use protocol_gateway.Service.Starting.{Reader, start_device_poller}
use protocol_gateway.Service.Starting.Fallback.{ToSubscribe, start_device_poller-refusals}
use protocol_gateway.Prelude.{
  ◌+◌, Bool, ◌==◌, ℕ, ◌<◌, ◌≡◌, refl, false, some, none, List, [], ◌∷◌, length, arith, true,
}
use protocol_gateway.Examples.Commands.{pump, pool}
use protocol_gateway.Examples.Publishing.{reading}
use protocol_gateway.Domain.Errors.{ok}
use protocol_gateway.Domain.Tag.{Protocol}
use protocol_gateway.Domain.DataPoint.{Quality}
use protocol_gateway.Domain.Manager.{
  new_protocol_manager, register_pool, route_read_tags, get_pool, same_protocol,
}
use protocol_gateway.Service.Topic.{sanitize_topic_segment}
use protocol_gateway.Service.Topic.Segments.{IsSegment, sanitize_topic_segment-IsSegment}
use protocol_gateway.Service.Polling.{
  PollingService, DevicePoller, Around, new_polling_service, begin_poll, finish_poll,
  get_enabled_tags,
}
use protocol_gateway.Service.Polling.Counters.{Step, Reachable, Polled, Reachable-Polled}

-- "/Tank #1 "
abbrev tank : List ℕ
tank = 0x2f ∷ 0x54 ∷ 0x61 ∷ 0x6e ∷ 0x6b ∷ 0x20 ∷ 0x23 ∷ 0x31 ∷ 0x20 ∷ []

tank_level : sanitize_topic_segment tank ≡ 0x54 ∷ 0x61 ∷ 0x6e ∷ 0x6b ∷ 0x5f ∷ 0x5f ∷ 0x31 ∷ []
unfolding sanitize_topic_segment
tank_level = refl

sanitize_topic_segment-IsSegment_example : IsSegment (sanitize_topic_segment tank)
sanitize_topic_segment-IsSegment_example = sanitize_topic_segment-IsSegment tank

abbrev around : Around
around = record {
  runes = record { points = λ s. tank; text = λ cs. "plant/level" };
  manager =
      register_pool Protocol.modbus_tcp
        (record pool {
          read_tags = λ d ts. ok (reading ∷ (record reading { quality = Quality.bad }) ∷ []);
        })
        new_protocol_manager;
  publish = λ ps. none;
  now = 5;
}

abbrev poller : DevicePoller
poller = record {
  device = pump;
  last_poll = none;
  last_error = none;
  stats = record { poll_count = 0; error_count = 0; skipped_count = 0; points_read = 0 };
}

abbrev polling : PollingService
polling = (begin_poll false false poller (new_polling_service 2)).0

abbrev polled : PollingService × DevicePoller
polled = elim (finish_poll around poller polling) [ none ↦ (polling, poller) | some r ↦ r ]

busy_worker : 0 < polling.busy
unfolding begin_poll new_polling_service
busy_worker = omega arith

finished : finish_poll around poller polling ≡ some polled
unfolding finish_poll begin_poll new_polling_service route_read_tags register_pool
    new_protocol_manager get_pool same_protocol
finished = refl

polled-Reachable : Reachable polled.0
polled-Reachable =
    Reachable.then (Reachable.then (Reachable.created 2) (Step.begun false false poller))
      (Step.ended around poller polled busy_worker finished)

Reachable-Polled_example : Polled polled.0
Reachable-Polled_example = Reachable-Polled polled-Reachable

counts :
    (length polled.0.handed ≡ 1)
    × (polled.0.stats.points_read ≡ 2)
    × (polled.0.stats.points_published ≡ 1)
unfolding finish_poll begin_poll new_polling_service route_read_tags register_pool
    new_protocol_manager get_pool same_protocol
counts = (refl, refl, refl)

-- A pump that is read by a subscription, which its handler accepts the third time.
abbrev subscriber : Reader
subscriber = record {
  device = record pump { protocol = Protocol.opcua; opc_use_subscriptions = true };
  running = false;
  subscribed = false;
  loops = 0;
}

abbrev third : ℕ → Bool
third k = k == 2

subscriber-ToSubscribe : ToSubscribe true subscriber
unfolding get_enabled_tags same_protocol
subscriber-ToSubscribe = record { idle = refl; wanted = refl; tagged = refl }

start_device_poller-refusals_example :
    (start_device_poller third true 2 0 subscriber ≡ none)
    × (third (0 + 2) ≡ true
        → start_device_poller third true 3 0 subscriber
          ≡ some (record subscriber { subscribed = true; running = true }))
start_device_poller-refusals_example =
    start_device_poller-refusals third true 2 0 subscriber subscriber-ToSubscribe
      (λ i h. ground (arith, h))
