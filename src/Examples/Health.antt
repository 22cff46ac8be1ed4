-- ===== src/Examples/Health.antt =====
-- A checker with two checks: a history of results, rounds and a shutdown.
use protocol_gateway.Prelude.{String, Option, none, some, List, [], ◌∷◌, ◌≡◌, ◌≤◌, refl, true}
use protocol_gateway.Health.{
  HealthChecker, CheckSeverity, OperationalState, critical, warning, unhealthy, new_checker,
}
use protocol_gateway.Health.Rounds.{run_checks}
use protocol_gateway.Health.Registry.{begin_stop, start}
use protocol_gateway.Health.Handlers.{check, liveness_handler}
use protocol_gateway.Prelude.Dict.{lookup}
use protocol_gateway.Health.Flapping.{
  Observation, observe_all, register, is_unhealthy, streak, unhealthy-streak,
}
use protocol_gateway.Health.States.{Step, Steps, Reachable, stage, Steps-stage, liveness-stopped}
use protocol_gateway.Health.Overall.{
  is_severity, fails_for_good, Unique, any_failure, run_checks-status,
}
use mathlib.Core.List.Perm

abbrev checks : List (String × CheckSeverity)
checks = ("mqtt", critical) ∷ ("clock", warning) ∷ []

abbrev seen : String → Option String → Observation
seen name e = record { name = name; severity = critical; error = e; time = 5 }

abbrev history : List Observation
history =
    seen "mqtt" none
    ∷ seen "mqtt" (some "refused")
    ∷ seen "clock" none
    ∷ seen "mqtt" (some "refused")
    ∷ []

unhealthy-streak_example :
    is_unhealthy "mqtt" (observe_all (register (new_checker 2 0 0) checks) history) ≡ true
unfolding streak
unhealthy-streak_example = unhealthy-streak 2 0 0 checks history "mqtt"

abbrev failing : String → Option String
failing name = some "refused"

abbrev passing : String → Option String
passing name = none

abbrev fresh : HealthChecker
fresh = record (new_checker 1 0 0) { checks = checks }

-- The goroutines of the round run in the other order.
abbrev backwards : List (String × CheckSeverity) → List (String × CheckSeverity)
backwards (a ∷ b ∷ []) = b ∷ a ∷ []
backwards cs = cs

run_checks-status_example : (check (run_checks backwards failing 4 fresh)).status ≡ unhealthy
unfolding any_failure new_checker Unique is_severity fails_for_good lookup
run_checks-status_example =
    run_checks-status backwards failing 4 fresh ((refl, tt), (tt, tt))
      (Perm.swap ("mqtt", critical) ("clock", warning) [])

abbrev ill : HealthChecker
ill = record fresh { state = OperationalState.degraded }

abbrev begun : HealthChecker
begun = start (new_checker 2 0 0)

begun-started : begun.started ≡ true
unfolding start new_checker
begun-started = refl

begun-Reachable : Reachable begun
begun-Reachable = Reachable.then (Reachable.created 2 0 0) Step.started

Steps-stage_example :
    stage begun.state ≤ stage (run_checks backwards passing 3 (begin_stop begun 2)).state
Steps-stage_example = Steps-stage begun-Reachable (
    Steps.more (Steps.more Steps.done (Step.stopping 2 begun-started))
      (Step.round backwards passing 3))

liveness-stopped_example : liveness_handler (begin_stop begun 2) ≡ 503
unfolding start new_checker begin_stop
liveness-stopped_example =
    liveness-stopped (Reachable.then begun-Reachable (Step.stopping 2 begun-started))
