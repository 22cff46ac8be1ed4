-- ===== src/Examples/Shaping.antt =====
-- A pool that runs one operation at a time, with one worker.
use protocol_gateway.Prelude.{
  ◌+◌, ◌≤◌, ◌<◌, ◌≡◌, refl, true, false, some, none, [], ◌∷◌, ◌++◌, length, take, drop, arith,
}
use protocol_gateway.Opcua.LoadShaping.{
  OpRequest, ShapingConfig, ConnectionPool, new_connection_pool, endpoint_full, read_now,
  check_global_load, priority_control, priority_safety, priority_telemetry,
}
use protocol_gateway.Opcua.LoadShaping.Workers.{take_next, take_safety}
use protocol_gateway.Opcua.LoadShaping.Steps.{Step, Calm, Calm-Reachable}
use protocol_gateway.Opcua.LoadShaping.Accounting.{Accounted, Reachable-Accounted}
use protocol_gateway.Opcua.LoadShaping.Bounds.{Contained, Reachable-Contained}
use protocol_gateway.Opcua.LoadShaping.Limits.{waiting, take_next-waiting}
use protocol_gateway.Opcua.LoadShaping.Running.{running-Calm}

abbrev narrow : ShapingConfig
narrow = record {
  max_global_in_flight = 1;
  threshold = 1;
  max_in_flight_per_endpoint = 0;
  priority_queue_size = 4;
  num_workers = 1;
}

abbrev read_it : OpRequest
read_it = record { priority = priority_telemetry; session = some "plc" }

abbrev set_it : OpRequest
set_it = record { priority = priority_control; session = some "plc" }

abbrev stop_it : OpRequest
stop_it = record { priority = priority_safety; session = none }

-- A read that runs, a write and a stop that wait, and a read that is refused.
abbrev running : ConnectionPool
running =
    (check_global_load (read_now none false read_it (new_connection_pool narrow)) read_it
      (new_connection_pool narrow)).0

abbrev one_waits : ConnectionPool
one_waits = (check_global_load (read_now none false set_it running) set_it running).0

abbrev two_wait : ConnectionPool
two_wait = (check_global_load (read_now none false stop_it one_waits) stop_it one_waits).0

abbrev crowded : ConnectionPool
crowded = (check_global_load (read_now none false read_it two_wait) read_it two_wait).0

free_worker : length crowded.working < crowded.config.num_workers
unfolding new_connection_pool check_global_load read_now endpoint_full
free_worker = omega arith

crowded-Calm : Calm (take_safety crowded)
crowded-Calm =
    Calm.then
      (Calm.checked
        (Calm.checked
          (Calm.checked (Calm.checked (Calm.created narrow) none false read_it (omega arith)) none
            false set_it (omega arith))
          none false stop_it (omega arith))
        none false read_it (omega arith))
      (Step.took_safety free_worker)

Reachable-Accounted_example : Accounted (take_safety crowded)
Reachable-Accounted_example = Reachable-Accounted (Calm-Reachable crowded-Calm)

Reachable-Contained_example : Contained (take_safety crowded)
Reachable-Contained_example = Reachable-Contained (Calm-Reachable crowded-Calm)

running-Calm_example :
    length (take_safety crowded).direct + length (take_safety crowded).working
    ≤ (take_safety crowded).config.max_global_in_flight + (take_safety crowded).config.num_workers
running-Calm_example = running-Calm crowded-Calm

take_next-waiting_example :
    ((take_next crowded).working ≡ crowded.working ++ take 1 (waiting crowded))
    × (waiting (take_next crowded) ≡ drop 1 (waiting crowded))
take_next-waiting_example = take_next-waiting crowded

counts :
    (waiting crowded ≡ stop_it ∷ set_it ∷ [])
    × ((take_safety crowded).global_in_flight ≡ 3)
    × (crowded.brownout_mode ≡ true)
unfolding new_connection_pool check_global_load read_now take_safety endpoint_full
counts = (refl, refl, refl)
