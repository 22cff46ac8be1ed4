-- ===== src/Opcua/LoadShaping.antt =====
-- internal/adapter/opcua/loadshaping.go: which operations of the sessions run, wait or are refused. A
-- function is what runs between two operations on the shared counters and channels.
pub mod Workers
pub mod Steps
pub mod Accounting
pub mod Limits
pub mod Bounds
pub mod Running
use protocol_gateway.Prelude.{
  ℕ, ◌+◌, ◌-◌, ◌/◌, Bool, true, false, not, ◌&&◌, String, str_eq, List, [], ◌∷◌, ◌++◌, Option, none,
  some, length, ltb, leb, remove_at, if◌then◌else◌, ◌==◌,
}
use protocol_gateway.Domain.Errors.{
  Error, circuit_breaker_open, service_overloaded, service_stopped,
}

-- 0 is telemetry, 1 control, 2 safety.
abbrev pub priority_telemetry : ℕ
priority_telemetry = 0

abbrev pub priority_control : ℕ
priority_control = 1

abbrev pub priority_safety : ℕ
priority_safety = 2

-- opRequest: the session is named by its endpoint.
pub record OpRequest : Type 0 where
  pub priority : ℕ
  pub session : Option String

-- `threshold` is the whole part of max_global_in_flight times the brownout threshold, a float; a
-- limit of 0 for an endpoint is no limit.
pub record ShapingConfig : Type 0 where
  pub max_global_in_flight : ℕ
  pub threshold : ℕ
  pub max_in_flight_per_endpoint : ℕ
  pub priority_queue_size : ℕ
  pub num_workers : ℕ

-- The part of ConnectionPool that shapes the load. `direct` are the operations that run in their
-- callers, `working` those that run in the workers.
pub record ConnectionPool : Type 0 where
  pub config : ShapingConfig
  pub global_in_flight : ℕ
  pub in_flight : String → ℕ
  pub brownout_mode : Bool
  pub closed : Bool
  pub telemetry : List OpRequest
  pub control : List OpRequest
  pub safety : List OpRequest
  pub direct : List OpRequest
  pub working : List OpRequest

unfoldable pub new_connection_pool : ShapingConfig → ConnectionPool
new_connection_pool c = record {
  config = c;
  global_in_flight = 0;
  in_flight = λ k. 0;
  brownout_mode = false;
  closed = false;
  telemetry = [];
  control = [];
  safety = [];
  direct = [];
  working = [];
}

-- What an operation adds to the counter of a session.
abbrev pub share : String → OpRequest → ℕ
share k op = elim op.session [ none ↦ 0 | some s ↦ if str_eq s k then 1 else 0 ]

-- `globalInFlight.Add(1)`, with `inFlight.Add(1)` where there is a session, and back.
unfoldable pub count_in : OpRequest → ConnectionPool → ConnectionPool
count_in op p = record p {
  global_in_flight = p.global_in_flight + 1;
  in_flight = λ k. p.in_flight k + share k op;
}

unfoldable pub count_out : OpRequest → ConnectionPool → ConnectionPool
count_out op p = record p {
  global_in_flight = p.global_in_flight - 1;
  in_flight = λ k. p.in_flight k - share k op;
}

-- What a call reads before it counts itself: its context's error, the state of the session's breaker,
-- the counters and the flag.
pub record Readings : Type 0 where
  pub expired : Option Error
  pub breaker_open : Bool
  pub brownout : Bool
  pub endpoint_in_flight : ℕ
  pub global_in_flight : ℕ

-- The readings of a call that nothing else runs beside.
unfoldable pub read_now : Option Error → Bool → OpRequest → ConnectionPool → Readings
read_now e tripped op p = record {
  expired = e;
  breaker_open = tripped;
  brownout = p.brownout_mode;
  endpoint_in_flight = elim op.session [ none ↦ 0 | some s ↦ p.in_flight s ];
  global_in_flight = p.global_in_flight;
}

abbrev pub has_session : OpRequest → Bool
has_session op = elim op.session [ none ↦ false | some s ↦ true ]

-- The endpoint is at its capacity.
unfoldable pub endpoint_full : ShapingConfig → Readings → OpRequest → Bool
endpoint_full c r op =
    has_session op
    && ltb 0 c.max_in_flight_per_endpoint
    && leb c.max_in_flight_per_endpoint r.endpoint_in_flight

-- The tests before the global limit.
unfoldable pub refuse_early : ShapingConfig → Readings → OpRequest → Option Error
refuse_early c r op = elim r.expired [
  | some e ↦ some e
  | none ↦
      if has_session op && r.breaker_open
      then some circuit_breaker_open
      else if r.brownout && op.priority == priority_telemetry
      then some service_overloaded
      else if endpoint_full c r op && op.priority == priority_telemetry
      then some service_overloaded
      else none
]

-- What becomes of a call. Go panics where there is no queue for the priority.
pub data Outcome : Type 0 where
  refused : Error → Outcome
  queued proceeding no_such_queue : Outcome

-- A send on the queue of the priority that does not wait.
unfoldable pub room_for : OpRequest → ConnectionPool → Option Bool
room_for op p =
    if op.priority == priority_telemetry
    then some (ltb (length p.telemetry) p.config.priority_queue_size)
    else if op.priority == priority_control
    then some (ltb (length p.control) p.config.priority_queue_size)
    else if op.priority == priority_safety
    then some (ltb (length p.safety) p.config.priority_queue_size)
    else none

unfoldable pub append_to : Bool → OpRequest → List OpRequest → List OpRequest
append_to here op ops = if here then ops ++ op ∷ [] else ops

unfoldable pub enqueue_request : OpRequest → ConnectionPool → ConnectionPool
unfolding append_to
enqueue_request op p = record p {
  telemetry = append_to (op.priority == priority_telemetry) op p.telemetry;
  control = append_to (op.priority == priority_control) op p.control;
  safety = append_to (op.priority == priority_safety) op p.safety;
}

-- The hard limit is reached: the call counts itself, and takes it back if there is no room.
unfoldable pub queue_or_refuse : OpRequest → ConnectionPool → ConnectionPool × Outcome
unfolding count_in count_out enqueue_request room_for
queue_or_refuse op p =
    if p.closed then (p, Outcome.refused service_stopped) else elim (room_for op p) [
      | none ↦ (count_in op p, Outcome.no_such_queue)
      | some fits ↦
          if fits
          then (enqueue_request op (count_in op p), Outcome.queued)
          else (count_out op (count_in op p), Outcome.refused service_overloaded)
    ]

unfoldable pub proceed : Readings → OpRequest → ConnectionPool → ConnectionPool × Outcome
unfolding count_in
proceed r op p = (
  record (count_in op p) {
    direct = p.direct ++ op ∷ [];
    brownout_mode = p.brownout_mode && not (ltb r.global_in_flight (p.config.threshold / 2));
  },
  Outcome.proceeding,
)

-- The part of checkGlobalLoadAndQueueWithSession that looks at the global limit.
unfoldable pub against_limit : Readings → OpRequest → ConnectionPool → ConnectionPool × Outcome
unfolding queue_or_refuse proceed
against_limit r op p =
    if leb p.config.threshold r.global_in_flight && op.priority == priority_telemetry
    then (record p { brownout_mode = true }, Outcome.refused service_overloaded)
    else if leb p.config.max_global_in_flight r.global_in_flight
    then queue_or_refuse op p
    else proceed r op p

-- checkGlobalLoadAndQueueWithSession, up to the operation itself.
unfoldable pub check_global_load : Readings → OpRequest → ConnectionPool → ConnectionPool × Outcome
unfolding refuse_early against_limit
check_global_load r op p = elim (refuse_early p.config r op) [
  | some e ↦ (p, Outcome.refused e)
  | none ↦ against_limit r op p
]

-- The deferred function of a call that went ahead.
unfoldable pub finish_direct : ℕ → ConnectionPool → ConnectionPool
unfolding count_out
finish_direct i p = elim (remove_at i p.direct) [
  | none ↦ p
  | some r ↦ count_out r.0 (record p { direct = r.1 })
]

-- checkGlobalHealth.
unfoldable pub check_global_health : ConnectionPool → ConnectionPool
check_global_health p = record p {
  brownout_mode =
      if leb p.config.threshold p.global_in_flight && not p.brownout_mode
      then true
      else if ltb p.global_in_flight (p.config.threshold / 2) && p.brownout_mode
      then false
      else p.brownout_mode;
}

-- Close, up to the wait for the workers.
unfoldable pub shut : ConnectionPool → ConnectionPool
shut p = record p { closed = true }
