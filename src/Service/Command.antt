-- ===== src/Service/Command.antt =====
-- internal/service/command_handler.go: write commands from MQTT. Times are left out. The channels
-- are lists; what the goroutines do between two of their channel operations is one function.
pub mod Processing
pub mod Life
pub mod Balance
pub mod Account
pub mod Index
pub mod Outcome
use protocol_gateway.Prelude.{
  ℕ, ◌+◌, ◌-◌, Bool, true, false, String, List, [], ◌∷◌, ◌++◌, Option, none, some, length, get_or,
  ltb, leb, if◌then◌else◌,
}
use protocol_gateway.Prelude.Dict.{lookup, insert, delete}
use protocol_gateway.Domain.Tag.{Tag}
use protocol_gateway.Domain.Value.{Value}
use protocol_gateway.Domain.Device.{Device}

pub record WriteCommand : Type 0 where
  pub request_id : String
  pub device_id : String
  pub tag_id : String
  pub value : Value

-- `error` is the empty string of a success, or the text of the error.
pub record WriteResponse : Type 0 where
  pub request_id : String
  pub device_id : String
  pub tag_id : String
  pub success : Bool
  pub error : Option String

pub record CommandConfig : Type 0 where
  pub enable_acknowledgement : Bool
  pub max_concurrent_writes : ℕ
  pub command_queue_size : ℕ

pub record CommandStats : Type 0 where
  pub received : ℕ
  pub succeeded : ℕ
  pub failed : ℕ
  pub rejected : ℕ

-- `writing` is what holds the semaphore; `workers` are the goroutines of processCommandQueue;
-- `responses` is what was handed to the broker so far.
pub record CommandHandler : Type 0 where
  pub config : CommandConfig
  pub devices : List (String × Device)
  pub tag_by_id : List (String × List (String × Tag))
  pub stats : CommandStats
  pub running : Bool
  pub cancelled : Bool
  pub workers : ℕ
  pub queue : List WriteCommand
  pub writing : List WriteCommand
  pub responses : List WriteResponse

-- buildTagIndex: of two tags with one id, the later one stays.
index_tags : List Tag → List (String × Tag) → List (String × Tag)
index_tags [] m = m
index_tags (t ∷ ts) m = index_tags ts (insert t.id t m)

unfoldable pub build_tag_index : Device → List (String × Tag)
unfolding index_tags
build_tag_index d = index_tags d.tags []

-- AddDevice and RemoveDevice.
unfoldable pub add_device : Device → CommandHandler → CommandHandler
add_device d h = record h {
  devices = insert d.id d h.devices;
  tag_by_id = insert d.id (build_tag_index d) h.tag_by_id;
}

unfoldable pub remove_device : String → CommandHandler → CommandHandler
remove_device id h = record h { devices = delete id h.devices; tag_by_id = delete id h.tag_by_id }

-- The loop of NewCommandHandler and UpdateDevices.
unfoldable pub add_devices : List Device → CommandHandler → CommandHandler
unfolding add_device
add_devices [] h = h
add_devices (d ∷ ds) h = add_devices ds (add_device d h)

-- UpdateDevices.
unfoldable pub update_devices : List Device → CommandHandler → CommandHandler
unfolding add_devices
update_devices ds h = add_devices ds (record h { devices = []; tag_by_id = [] })

abbrev at_least_one : ℕ → ℕ → ℕ
at_least_one d n = if leb n 0 then d else n

-- NewCommandHandler, up to the loop and with it.
unfoldable pub idle_handler : CommandConfig → CommandHandler
idle_handler c = record {
  config = record c {
    max_concurrent_writes = at_least_one 50 c.max_concurrent_writes;
    command_queue_size = at_least_one 1000 c.command_queue_size;
  };
  devices = [];
  tag_by_id = [];
  stats = record { received = 0; succeeded = 0; failed = 0; rejected = 0 };
  running = false;
  cancelled = false;
  workers = 0;
  queue = [];
  writing = [];
  responses = [];
}

unfoldable pub new_command_handler : CommandConfig → List Device → CommandHandler
unfolding idle_handler add_devices
new_command_handler c ds = add_devices ds (idle_handler c)

-- sendResponse.
unfoldable pub send_response : WriteCommand → Bool → Option String → CommandHandler → CommandHandler
send_response c success e h = record h {
  responses =
      if h.config.enable_acknowledgement
      then h.responses
        ++ (record {
          request_id = c.request_id;
          device_id = c.device_id;
          tag_id = c.tag_id;
          success = success;
          error = e;
        })
          ∷ []
      else h.responses;
}

unfoldable pub count_received : CommandHandler → CommandHandler
count_received h = record h { stats = record h.stats { received = h.stats.received + 1 } }

unfoldable pub count_rejected : CommandHandler → CommandHandler
count_rejected h = record h { stats = record h.stats { rejected = h.stats.rejected + 1 } }

unfoldable pub count_failed : CommandHandler → CommandHandler
count_failed h = record h { stats = record h.stats { failed = h.stats.failed + 1 } }

unfoldable pub count_succeeded : CommandHandler → CommandHandler
count_succeeded h = record h { stats = record h.stats { succeeded = h.stats.succeeded + 1 } }

-- The select that queues a command or applies back-pressure.
unfoldable pub enqueue : WriteCommand → CommandHandler → CommandHandler
unfolding send_response count_rejected
enqueue c h =
    if ltb (length h.queue) h.config.command_queue_size
    then record h { queue = h.queue ++ c ∷ [] }
    else count_rejected (send_response c false (some "command queue full, try again later") h)

-- strings.Split of the topic, and json.Unmarshal of the payload into a command (whose missing
-- fields are empty) or into a value.
pub record Parsers : Type 0 where
  pub split : String → List String
  pub command_of : String → Option WriteCommand
  pub value_of : String → Option Value
  pub raw_string : String → Value

abbrev empty_command : WriteCommand
empty_command = record { request_id = ""; device_id = ""; tag_id = ""; value = Value.null }

-- handleWriteCommand. The guard keeps the index in range.
unfoldable pub handle_write_command : Parsers → String → String → CommandHandler → CommandHandler
unfolding enqueue count_rejected count_received
handle_write_command ps topic payload h =
    let parts = ps.split topic in
    if ltb (length parts) 3
    then count_rejected (count_received h)
    else elim (ps.command_of payload) [
      | none ↦ count_rejected (count_received h)
      | some c ↦
          enqueue (record c { device_id = get_or parts (length parts - 2) "" }) (count_received h)
    ]

-- handleTagWriteCommand. A payload that is no JSON value is taken as a string.
unfoldable pub handle_tag_write_command :
    Parsers → String → String → CommandHandler → CommandHandler
unfolding enqueue count_rejected count_received
handle_tag_write_command ps topic payload h =
    let parts = ps.split topic in
    if ltb (length parts) 4
    then count_rejected (count_received h)
    else enqueue
        (record empty_command {
          device_id = get_or parts (length parts - 3) "";
          tag_id = get_or parts (length parts - 2) "";
          value = elim (ps.value_of payload) [ none ↦ ps.raw_string payload | some v ↦ v ];
        })
        (count_received h)
