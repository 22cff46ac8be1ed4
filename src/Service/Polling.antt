-- ===== src/Service/Polling.antt =====
-- pollDevice of internal/service/polling.go with the counters it keeps, in two parts: up to the
-- worker pool, and with a worker. The points that adapters return are there, never nil. Staleness and the recycling of slices and points are left out.
pub mod Counters
use protocol_gateway.Prelude.{
  ℕ, ◌+◌, ◌-◌, Bool, true, false, not, ◌&&◌, String, str_eq, List, [], ◌∷◌, ◌++◌, Option, none,
  some, length, ltb, if◌then◌else◌,
}
use protocol_gateway.Prelude.Dict.{lookup, insert}
use protocol_gateway.Domain.Errors.{Error, Result, ok, err, panic, circuit_breaker_open}
use protocol_gateway.Domain.Tag.{Tag}
use protocol_gateway.Domain.DataPoint.{DataPoint, Quality}
use protocol_gateway.Domain.Device.{Device}
use protocol_gateway.Domain.Manager.{ProtocolManager, route_read_tags}
use protocol_gateway.Service.Topic.{is_space, trim, sanitize_topic_segment}

pub record PollingStats : Type 0 where
  pub total_polls : ℕ
  pub success_polls : ℕ
  pub failed_polls : ℕ
  pub skipped_polls : ℕ
  pub points_read : ℕ
  pub points_published : ℕ

pub record DeviceStats : Type 0 where
  pub poll_count : ℕ
  pub error_count : ℕ
  pub skipped_count : ℕ
  pub points_read : ℕ

pub record DevicePoller : Type 0 where
  pub device : Device
  pub last_poll : Option ℕ
  pub last_error : Option Error
  pub stats : DeviceStats

-- `busy` is how many hold a place in the worker pool; `handed` is what the publisher was given.
pub record PollingService : Type 0 where
  pub worker_count : ℕ
  pub busy : ℕ
  pub stats : PollingStats
  pub handed : List DataPoint

-- NewPollingService.
unfoldable pub new_polling_service : ℕ → PollingService
new_polling_service workers = record {
  worker_count = if ltb 0 workers then workers else 10;
  busy = 0;
  stats = record {
    total_polls = 0;
    success_polls = 0;
    failed_polls = 0;
    skipped_polls = 0;
    points_read = 0;
    points_published = 0;
  };
  handed = [];
}

-- Go's conversions between a string and its code points.
pub record Runes : Type 0 where
  pub points : String → List ℕ
  pub text : List ℕ → String

-- What the rest of the program answers to a poll: the protocol manager, the publisher and the clock.
pub record Around : Type 0 where
  pub runes : Runes
  pub manager : ProtocolManager
  pub publish : List DataPoint → Option Error
  pub now : ℕ

abbrev is_empty : List ℕ → Bool
is_empty [] = true
is_empty (c ∷ cs) = false

abbrev level_below : Runes → String → List ℕ → String
level_below r prefix suffix =
    if is_empty suffix then prefix else r.text (r.points prefix ++ 0x2f ∷ suffix)

-- topicForTag.
unfoldable pub topic_for_tag : Runes → String → Tag → String
topic_for_tag r prefix t =
    let own = trim is_space (r.points t.topic_suffix) in
    let named = if is_empty own then r.points t.name else own in
    let chosen = if is_empty (trim is_space named) then r.points t.id else named in
    level_below r prefix (sanitize_topic_segment chosen)

-- getEnabledTags.
unfoldable pub get_enabled_tags : List Tag → List Tag
get_enabled_tags [] = []
get_enabled_tags (t ∷ ts) = let rest = get_enabled_tags ts in if t.enabled then t ∷ rest else rest

tags_by_id : List Tag → List (String × Tag) → List (String × Tag)
tags_by_id [] m = m
tags_by_id (t ∷ ts) m = tags_by_id ts (if str_eq t.id "" then m else insert t.id t m)

-- The topic of a point: of its tag, or of its tag's id where the device has no such tag.
unfoldable pub topic_of : Runes → String → List (String × Tag) → DataPoint → String
unfolding topic_for_tag
topic_of r prefix tags p = elim (lookup p.tag_id tags) [
  | some t ↦ topic_for_tag r prefix t
  | none ↦ level_below r prefix (sanitize_topic_segment (r.points p.tag_id))
]

abbrev pub is_good : Quality → Bool
is_good Quality.good = true
is_good _ = false

-- The loop that sets the topics and keeps the good points.
unfoldable pub good_points : Runes → String → List (String × Tag) → List DataPoint → List DataPoint
unfolding topic_of
good_points r prefix tags [] = []
good_points r prefix tags (p ∷ ps) =
    let rest = good_points r prefix tags ps in
    if is_good p.quality then record p { topic = topic_of r prefix tags p } ∷ rest else rest

-- The select on the worker pool and the context; where both are ready Go picks either.
unfoldable pub begin_poll :
    Bool → Bool → DevicePoller → PollingService → PollingService × DevicePoller × Bool
begin_poll cancelled done_first dp s =
    if ltb s.busy s.worker_count && not (cancelled && done_first)
    then (
      record s {
        busy = s.busy + 1;
        stats = record s.stats { total_polls = s.stats.total_polls + 1 };
      },
      record dp { stats = record dp.stats { poll_count = dp.stats.poll_count + 1 } },
      true,
    )
    else if cancelled
    then (s, dp, false)
    else (
      record s { stats = record s.stats { skipped_polls = s.stats.skipped_polls + 1 } },
      record dp { stats = record dp.stats { skipped_count = dp.stats.skipped_count + 1 } },
      false,
    )

is_breaker_open : Error → Bool
is_breaker_open circuit_breaker_open = true
is_breaker_open _ = false

-- A read that failed. The worker is given back.
unfoldable pub fail_poll : Error → DevicePoller → PollingService → PollingService × DevicePoller
unfolding is_breaker_open
fail_poll e dp s =
    let skipped = if is_breaker_open e then 1 else 0 in
    let failed = if is_breaker_open e then 0 else 1 in
    (
      record s {
        busy = s.busy - 1;
        stats = record s.stats {
          skipped_polls = s.stats.skipped_polls + skipped;
          failed_polls = s.stats.failed_polls + failed;
        };
      },
      record dp {
        last_error = some e;
        stats = record dp.stats {
          skipped_count = dp.stats.skipped_count + skipped;
          error_count = dp.stats.error_count + failed;
        };
      },
    )

-- PublishBatch with the good points, if there are any.
unfoldable pub published_count : (List DataPoint → Option Error) → List DataPoint → ℕ
published_count publish [] = 0
published_count publish (p ∷ ps) = elim (publish (p ∷ ps)) [ none ↦ length (p ∷ ps) | some e ↦ 0 ]

-- A read that succeeded. The worker is given back.
unfoldable pub pass_poll :
    Around
    → List (String × Tag)
    → List DataPoint
    → DevicePoller
    → PollingService
    → PollingService × DevicePoller
unfolding good_points published_count
pass_poll w tags ps dp s =
    let good = good_points w.runes dp.device.uns_prefix tags ps in
    (
      record s {
        busy = s.busy - 1;
        stats = record s.stats {
          success_polls = s.stats.success_polls + 1;
          points_read = s.stats.points_read + length ps;
          points_published = s.stats.points_published + published_count w.publish good;
        };
        handed = s.handed ++ good;
      },
      record dp {
        last_poll = some w.now;
        last_error = none;
        stats = record dp.stats { points_read = dp.stats.points_read + length ps };
      },
    )

-- What was read, or none where the adapter panics.
unfoldable pub conclude_poll :
    Around
    → List (String × Tag)
    → Result (List DataPoint)
    → DevicePoller
    → PollingService
    → Option (PollingService × DevicePoller)
unfolding fail_poll pass_poll
conclude_poll w tags (ok ps) dp s = some (pass_poll w tags ps dp s)
conclude_poll w tags (err e) dp s = some (fail_poll e dp s)
conclude_poll w tags panic dp s = none

-- The rest of pollDevice, from the enabled tags on.
unfoldable pub poll_with :
    Around → List Tag → DevicePoller → PollingService → Option (PollingService × DevicePoller)
unfolding conclude_poll tags_by_id
poll_with w [] dp s = some (record s { busy = s.busy - 1 }, dp)
poll_with w (t ∷ ts) dp s =
    conclude_poll w (tags_by_id (t ∷ ts) []) (route_read_tags w.manager dp.device (t ∷ ts)) dp s

unfoldable pub finish_poll :
    Around → DevicePoller → PollingService → Option (PollingService × DevicePoller)
unfolding poll_with get_enabled_tags
finish_poll w dp s = poll_with w (get_enabled_tags dp.device.tags) dp s

-- The callback of a subscription, with what Publish answers.
unfoldable pub on_data :
    Option Error → DataPoint → DevicePoller → PollingService → PollingService × DevicePoller
on_data answer p dp s =
    let good = is_good p.quality in
    (
      record s {
        stats = record s.stats {
          points_read = s.stats.points_read + 1;
          points_published =
              s.stats.points_published
              + (if good then elim answer [ none ↦ 1 | some e ↦ 0 ] else 0);
        };
        handed = if good then s.handed ++ p ∷ [] else s.handed;
      },
      record dp { stats = record dp.stats { points_read = dp.stats.points_read + 1 } },
    )
