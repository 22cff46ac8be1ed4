-- ===== src/Opcua/LoadShaping/Workers.antt =====
-- priorityQueueProcessor of internal/adapter/opcua/loadshaping.go.
use protocol_gateway.Prelude.{ℕ, List, [], ◌∷◌, ◌++◌, none, some, remove_at}
use protocol_gateway.Opcua.LoadShaping.{OpRequest, ConnectionPool, count_out}

-- A worker receives from one of the queues, which are given once more as lists.
unfoldable pub receive_safety : List OpRequest → ConnectionPool → ConnectionPool
receive_safety [] p = p
receive_safety (op ∷ rest) p = record p { safety = rest; working = p.working ++ op ∷ [] }

unfoldable pub take_safety : ConnectionPool → ConnectionPool
unfolding receive_safety
take_safety p = receive_safety p.safety p

unfoldable pub receive_control : List OpRequest → ConnectionPool → ConnectionPool
receive_control [] p = p
receive_control (op ∷ rest) p = record p { control = rest; working = p.working ++ op ∷ [] }

unfoldable pub take_control : ConnectionPool → ConnectionPool
unfolding receive_control
take_control p = receive_control p.control p

unfoldable pub receive_telemetry : List OpRequest → ConnectionPool → ConnectionPool
receive_telemetry [] p = p
receive_telemetry (op ∷ rest) p = record p { telemetry = rest; working = p.working ++ op ∷ [] }

unfoldable pub take_telemetry : ConnectionPool → ConnectionPool
unfolding receive_telemetry
take_telemetry p = receive_telemetry p.telemetry p

-- The three selects of priorityQueueProcessor, one inside the default of the other.
unfoldable pub choose : List OpRequest → List OpRequest → ConnectionPool → ConnectionPool
unfolding receive_safety receive_control take_telemetry
choose (op ∷ rest) controls p = receive_safety (op ∷ rest) p
choose [] (op ∷ rest) p = receive_control (op ∷ rest) p
choose [] [] p = take_telemetry p

unfoldable pub take_next : ConnectionPool → ConnectionPool
unfolding choose
take_next p = choose p.safety p.control p

-- A worker is done with an operation, because it ran, or because its context has ended or the breaker
-- is open: each of the three branches takes it off the counters.
unfoldable pub finish_work : ℕ → ConnectionPool → ConnectionPool
unfolding count_out
finish_work i p = elim (remove_at i p.working) [
  | none ↦ p
  | some r ↦ count_out r.0 (record p { working = r.1 })
]
