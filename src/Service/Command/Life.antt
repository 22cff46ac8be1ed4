-- ===== src/Service/Command/Life.antt =====
-- Start and Stop of internal/service/command_handler.go, and the steps of a handler's life.

use protocol_gateway.Prelude.{
  ℕ, ◌+◌, ◌-◌, ◌&&◌, ◌||◌, ◌<◌, ◌≡◌, Bool, true, false, String, List, Option, none, some, length,
  if◌then◌else◌,
}
use protocol_gateway.Domain.Errors.{Error, mqtt_subscribe_failed}
use protocol_gateway.Domain.Device.{Device}
use protocol_gateway.Domain.Manager.{ProtocolManager}
use protocol_gateway.Service.Command.{
  CommandConfig, CommandHandler, Parsers, new_command_handler, add_device, remove_device,
  update_devices, handle_write_command, handle_tag_write_command,
}
use protocol_gateway.Service.Command.Processing.{accept, complete}

-- Start: a worker is started before the two subscriptions, which the broker grants or refuses.
unfoldable pub start_handler : Bool → Bool → CommandHandler → CommandHandler × Option Error
start_handler first second h =
    let granted = first && second in
    (
      record h {
        workers = if h.running then h.workers else h.workers + 1;
        running = h.running || granted;
      },
      if h.running || granted then none else some mqtt_subscribe_failed,
    )

-- Stop, up to the wait for the workers, and after it.
unfoldable pub request_stop : CommandHandler → CommandHandler
request_stop h = record h { cancelled = h.cancelled || h.running }

unfoldable pub end_stop : CommandHandler → CommandHandler
end_stop h = record h { running = false }

-- A worker that finds the context done, and the queue empty or the time for draining over, returns.
unfoldable pub leave : CommandHandler → CommandHandler
leave h = record h { workers = h.workers - 1 }

-- One step of the broker's callbacks, of the workers, or of the owner of the handler. A worker that
-- is not writing is idle.
pub data Step : CommandHandler → CommandHandler → Type 0 where
  wrote :
      {h : CommandHandler} (ps : Parsers) (topic payload : String)
      → Step h (handle_write_command ps topic payload h)
  wrote_tag :
      {h : CommandHandler} (ps : Parsers) (topic payload : String)
      → Step h (handle_tag_write_command ps topic payload h)
  accepted :
      {h : CommandHandler} (done_first : Bool)
      → length h.writing < h.workers
      → Step h (accept done_first h)
  completed : {h : CommandHandler} (m : ProtocolManager) (i : ℕ) → Step h (complete m i h)
  left : {h : CommandHandler} → h.cancelled ≡ true → length h.writing < h.workers → Step h (leave h)
  started : {h : CommandHandler} (first second : Bool) → Step h (start_handler first second h).0
  stopping : {h : CommandHandler} → Step h (request_stop h)
  stopped : {h : CommandHandler} → h.cancelled ≡ true → h.workers ≡ 0 → Step h (end_stop h)
  updated : {h : CommandHandler} (ds : List Device) → Step h (update_devices ds h)
  added : {h : CommandHandler} (d : Device) → Step h (add_device d h)
  removed : {h : CommandHandler} (id : String) → Step h (remove_device id h)

-- A handler after some steps from its construction.
pub data Reachable : CommandHandler → Type 0 where
  created : (c : CommandConfig) (ds : List Device) → Reachable (new_command_handler c ds)
  then : {h k : CommandHandler} → Reachable h → Step h k → Reachable k
