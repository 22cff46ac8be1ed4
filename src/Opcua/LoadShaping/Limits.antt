-- ===== src/Opcua/LoadShaping/Limits.antt =====
-- The limits of internal/adapter/opcua/loadshaping.go, its priorities and its brownout.
use protocol_gateway.Prelude.{
  ◌/◌, ◌≤◌, ◌≡◌, ◌↔◌, ◌⊎◌, refl, sym, true, List, [], ◌∷◌, ◌++◌, Bool-cases, take, drop, arith,
}
use mathlib.Core.List.{append-nil}
use protocol_gateway.Opcua.LoadShaping.{OpRequest, ConnectionPool, check_global_health}
use protocol_gateway.Opcua.LoadShaping.Workers.{
  take_next, choose, take_telemetry, receive_telemetry,
}

-- What waits, in the order in which a worker wants it.
abbrev pub waiting : ConnectionPool → List OpRequest
waiting p = p.safety ++ p.control ++ p.telemetry

chosen :
    (s c t : List OpRequest) (p : ConnectionPool)
    → p.safety ≡ s
    → p.control ≡ c
    → p.telemetry ≡ t
    → ((choose s c p).working ≡ p.working ++ take 1 (s ++ c ++ t))
      × (waiting (choose s c p) ≡ drop 1 (s ++ c ++ t))
unfolding choose take_telemetry receive_telemetry
chosen (op ∷ rest) c t p es ec et = (refl, rw (ec, et) refl)
chosen [] (op ∷ rest) t p es ec et = (refl, rw (es, et) refl)
chosen [] [] [] p es ec et =
    simp (take_telemetry, et) (sym (append-nil p.working), simp (es, ec) refl)
chosen [] [] (op ∷ rest) p es ec et = simp (take_telemetry, et) (refl, simp (es, ec) refl)

-- A worker that receives uninterrupted takes the first operation of the queues put one after the
-- other, safety before control before telemetry, and the others stay in their order.
pub take_next-waiting :
    (p : ConnectionPool)
    → ((take_next p).working ≡ p.working ++ take 1 (waiting p))
      × (waiting (take_next p) ≡ drop 1 (waiting p))
unfolding take_next
take_next-waiting p = chosen p.safety p.control p.telemetry p refl refl refl

-- The health check ends with the brownout on if the load is at the threshold, or if the brownout was
-- on and the load has not fallen below half of the threshold; otherwise it ends with it off.
brownout_mode-check_global_health :
    (p : ConnectionPool)
    → ((check_global_health p).brownout_mode ≡ true) ↔ (
        (p.config.threshold ≤ p.global_in_flight)
        ⊎ ((p.brownout_mode ≡ true) × (p.config.threshold / 2 ≤ p.global_in_flight)))
unfolding check_global_health
brownout_mode-check_global_health p = ground (arith, Bool-cases p.brownout_mode)
