-- ===== src/Health/Handlers.antt =====
-- What internal/health/checker.go answers to its HTTP and other clients.
use protocol_gateway.Health.Rounds.{run_checks}
use protocol_gateway.Health.{
  CheckSeverity, HealthChecker, HealthResponse, OperationalState, same_state, is_status, healthy,
  unhealthy, unknown, List, String, Option,
}
use protocol_gateway.Prelude.{ℕ, Bool, ◌&&◌, ◌||◌, not, [], none, some, if◌then◌else◌}

-- Check: the cached response, or one that says "unknown".
unfoldable pub check : HealthChecker → HealthResponse
check h = elim h.cached_result [
  | some r ↦ r
  | none ↦ record { status = unknown; state = h.state; checks = [] }
]

is_starting : OperationalState → Bool
unfolding same_state
is_starting s = same_state s OperationalState.starting

-- The status codes of HealthHandler, LivenessHandler and ReadinessHandler: 200 or 503.
unfoldable pub health_handler : HealthChecker → ℕ
unfolding check is_status
health_handler h = if is_status (check h).status unhealthy then 503 else 200

unfoldable pub liveness_handler : HealthChecker → ℕ
unfolding same_state
liveness_handler h =
    if same_state h.state OperationalState.offline
      || same_state h.state OperationalState.shutting_down
    then 503
    else 200

unfoldable pub readiness_handler : HealthChecker → ℕ
unfolding check is_status is_starting
readiness_handler h =
    if is_status (check h).status unhealthy || is_starting (check h).state then 503 else 200

-- IsHealthy and IsReady.
unfoldable pub is_healthy : HealthChecker → Bool
unfolding check is_status
is_healthy h = is_status (check h).status healthy

unfoldable pub is_ready : HealthChecker → Bool
unfolding check is_status is_starting
is_ready h = not (is_status (check h).status unhealthy) && not (is_starting h.state)

-- RunChecksNow.
unfoldable pub run_checks_now :
    (List (String × CheckSeverity) → List (String × CheckSeverity))
    → (String → Option String)
    → ℕ
    → HealthChecker
    → HealthChecker × HealthResponse
run_checks_now order probe now h = let k = run_checks order probe now h in (k, check k)
