-- ===== src/Examples/Commands.antt =====
-- A pump, a handler that gets two commands for it, and a pool that writes to it.
use protocol_gateway.Prelude.{◌<◌, ◌≡◌, refl, true, false, some, none, [], ◌∷◌, length, arith}
use protocol_gateway.Prelude.Dict.{lookup, insert}
use protocol_gateway.Examples.Devices.{level, flow}
use protocol_gateway.Domain.Errors.{err, read_failed}
use protocol_gateway.Domain.Tag.{Protocol, is_writable}
use protocol_gateway.Domain.Value.{Value}
use protocol_gateway.Domain.Device.{Device}
use protocol_gateway.Domain.Manager.{
  ProtocolPool, ProtocolManager, new_protocol_manager, register_pool, get_pool, same_protocol,
  route_write_tag,
}
use protocol_gateway.Service.Command.{
  count_succeeded, build_tag_index, WriteCommand, CommandConfig, CommandHandler, Parsers,
  new_command_handler, handle_write_command,
}
use protocol_gateway.Service.Command.Processing.{accept, complete, outcome, find_tag}
use protocol_gateway.Service.Command.Life.{Step, Reachable, start_handler}
use protocol_gateway.Service.Command.Balance.{Balanced}
use protocol_gateway.Service.Command.Account.{Reachable-Balanced}
use protocol_gateway.Service.Command.Outcome.{Written, outcome-Written}

abbrev pub pump : Device
pump = record {
  id = "pump";
  name = "Pump";
  protocol = Protocol.modbus_tcp;
  host = "10.0.0.7";
  serial_port = "";
  connection = record {
    port = 502;
    slave_id = 1;
    timeout = 0;
    retry_count = 0;
    retry_delay = 0;
    circuit_breaker = none;
  };
  tags = level ∷ flow ∷ [];
  poll_interval = 1000000000;
  enabled = true;
  uns_prefix = "plant";
  opc_use_subscriptions = false;
}

abbrev pub pool : ProtocolPool
pool = record {
  read_tags = λ d ts. err read_failed;
  read_tag = λ d t. err read_failed;
  write_tag = λ d t v. none;
  close = none;
  health_check = none;
}

abbrev manager : ProtocolManager
manager = register_pool Protocol.modbus_tcp pool new_protocol_manager

abbrev write_level : WriteCommand
write_level = record {
  request_id = "1";
  device_id = "pump";
  tag_id = "level";
  value = Value.uint16 7;
}

abbrev parsers : Parsers
parsers = record {
  split = λ t. "cmd" ∷ "pump" ∷ "write" ∷ [];
  command_of = λ s. some write_level;
  value_of = λ s. none;
  raw_string = λ s. Value.null;
}

-- A queue of one command.
abbrev settings : CommandConfig
settings = record {
  enable_acknowledgement = true;
  max_concurrent_writes = 2;
  command_queue_size = 1;
}

abbrev started : CommandHandler
started = (start_handler true true (new_command_handler settings (pump ∷ []))).0

-- The second of two commands finds the queue full; the first is written.
abbrev asked : CommandHandler
asked =
    handle_write_command parsers "cmd/pump/write" "{}"
      (handle_write_command parsers "cmd/pump/write" "{}" started)

abbrev written : CommandHandler
written = complete manager 0 (accept false asked)

idle_worker : length asked.writing < asked.workers
unfolding start_handler new_command_handler handle_write_command
idle_worker = omega arith

written-Reachable : Reachable written
written-Reachable =
    Reachable.then
      (Reachable.then
        (Reachable.then
          (Reachable.then
            (Reachable.then (Reachable.created settings (pump ∷ [])) (Step.started true true))
            (Step.wrote parsers "cmd/pump/write" "{}"))
          (Step.wrote parsers "cmd/pump/write" "{}"))
        (Step.accepted false idle_worker))
      (Step.completed manager 0)

Reachable-Balanced_example : Balanced 0 written
Reachable-Balanced_example = Reachable-Balanced written-Reachable

counts : (written.stats.received ≡ 2) × (written.stats.succeeded ≡ 1) × (written.stats.rejected ≡ 1)
unfolding start_handler new_command_handler handle_write_command accept complete outcome
    register_pool new_protocol_manager lookup insert find_tag build_tag_index is_writable
    route_write_tag get_pool same_protocol count_succeeded
counts = (refl, refl, refl)

outcome-Written_example : Written manager written write_level
unfolding start_handler new_command_handler handle_write_command accept complete outcome
    register_pool new_protocol_manager lookup insert find_tag build_tag_index is_writable
    route_write_tag get_pool same_protocol count_succeeded
outcome-Written_example = outcome-Written written-Reachable manager write_level refl
