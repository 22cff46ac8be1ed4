-- ===== src/Service/Starting.antt =====
-- startDevicePoller and startDeviceSubscription of internal/service/polling.go, which call each other.
pub mod Fallback
use protocol_gateway.Prelude.{
  ℕ, zero, suc, ◌+◌, Bool, true, false, ◌&&◌, List, [], ◌∷◌, Option, none, some, if◌then◌else◌,
}
use protocol_gateway.Domain.Tag.{Tag, Protocol}
use protocol_gateway.Domain.Device.{Device}
use protocol_gateway.Domain.Manager.{same_protocol}
use protocol_gateway.Service.Polling.{get_enabled_tags}

-- The part of devicePoller that tells how the device is read; `loops` are its polling goroutines.
pub record Reader : Type 0 where
  pub device : Device
  pub running : Bool
  pub subscribed : Bool
  pub loops : ℕ

-- The device is read by a subscription, if the service has a handler for them.
abbrev pub wants_subscription : Bool → Device → Bool
wants_subscription has_handler d =
    d.opc_use_subscriptions && same_protocol d.protocol Protocol.opcua && has_handler

abbrev pub has_tags : List Tag → Bool
has_tags [] = false
has_tags (t ∷ ts) = true

abbrev start_loop : Reader → Reader
start_loop r = record r { running = true; loops = r.loops + 1 }

-- `subscribe k` is whether the handler's k-th answer is a success. There is none where the calls
-- have not returned with this fuel.
unfoldable pub start_device_poller : (ℕ → Bool) → Bool → ℕ → ℕ → Reader → Option Reader
unfolding get_enabled_tags
start_device_poller subscribe has_handler zero k r = none
start_device_poller subscribe has_handler (suc fuel) k r =
    let again =
      start_device_poller subscribe has_handler fuel (k + 1)
        (record r { subscribed = false; running = false }) in
    if r.running
    then some r
    else if wants_subscription has_handler r.device
    then if has_tags (get_enabled_tags r.device.tags)
      then if subscribe k then some (record r { subscribed = true; running = true }) else again
      else some r
    else some (start_loop r)
