-- ===== src/Opcua/LoadShaping/Steps.antt =====
-- The steps of internal/adapter/opcua/loadshaping.go.
use protocol_gateway.Prelude.{ℕ, ◌<◌, ◌≤◌, length, Bool, Option}
use protocol_gateway.Domain.Errors.{Error}
use protocol_gateway.Opcua.LoadShaping.{
  OpRequest, ShapingConfig, ConnectionPool, Readings, read_now, new_connection_pool,
  check_global_load, finish_direct, check_global_health, shut, priority_safety,
}
use protocol_gateway.Opcua.LoadShaping.Workers.{
  take_safety, take_control, take_telemetry, finish_work,
}

-- One step of the end of a call, of a worker, the health check or Close. A worker may receive from any
-- queue: what it found empty may have been filled since.
pub data Step : ConnectionPool → ConnectionPool → Type 0 where
  ran : {p : ConnectionPool} (i : ℕ) → Step p (finish_direct i p)
  took_safety :
      {p : ConnectionPool} → length p.working < p.config.num_workers → Step p (take_safety p)
  took_control :
      {p : ConnectionPool} → length p.working < p.config.num_workers → Step p (take_control p)
  took_telemetry :
      {p : ConnectionPool} → length p.working < p.config.num_workers → Step p (take_telemetry p)
  finished : {p : ConnectionPool} (i : ℕ) → Step p (finish_work i p)
  watched : {p : ConnectionPool} → Step p (check_global_health p)
  closing : {p : ConnectionPool} → Step p (shut p)

-- A pool after some calls and steps. The readings of a call may be old. The priority of an operation
-- is one of the three: at a higher one the code panics at the hard limit, after it counted the call.
pub data Reachable : ConnectionPool → Type 0 where
  created : (c : ShapingConfig) → Reachable (new_connection_pool c)
  checked :
      {p : ConnectionPool}
      → Reachable p
      → (r : Readings) (op : OpRequest) → op.priority ≤ priority_safety
      → Reachable (check_global_load r op p).0
  then : {p q : ConnectionPool} → Reachable p → Step p q → Reachable q

-- The same where nothing runs between the readings of a call and its counting.
pub data Calm : ConnectionPool → Type 0 where
  created : (c : ShapingConfig) → Calm (new_connection_pool c)
  checked :
      {p : ConnectionPool}
      → Calm p
      → (e : Option Error) (tripped : Bool) (op : OpRequest) → op.priority ≤ priority_safety
      → Calm (check_global_load (read_now e tripped op p) op p).0
  then : {p q : ConnectionPool} → Calm p → Step p q → Calm q

pub Calm-Reachable : {p : ConnectionPool} → Calm p → Reachable p
Calm-Reachable (Calm.created c) = Reachable.created c
Calm-Reachable (Calm.checked m e tripped op h) =
    Reachable.checked (Calm-Reachable m) (read_now e tripped op _) op h
Calm-Reachable (Calm.then m s) = Reachable.then (Calm-Reachable m) s
