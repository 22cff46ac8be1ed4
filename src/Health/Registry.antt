-- ===== src/Health/Registry.antt =====
-- The registration of checks, and Start and Stop, of internal/health/checker.go.
use protocol_gateway.Health.{
  HealthChecker, CheckSeverity, OperationalState, critical, unknown, set_state,
}
use protocol_gateway.Prelude.{ℕ, true, String, none, if◌then◌else◌}
use protocol_gateway.Prelude.Dict.{insert, delete}

-- AddCheckWithSeverity.
unfoldable pub add_check_with_severity : HealthChecker → String → CheckSeverity → HealthChecker
add_check_with_severity h name severity = record h {
  checks = insert name severity h.checks;
  statuses =
      insert name
        (record {
          status = unknown;
          severity = severity;
          error = none;
          last_check = 0;
          consecutive_fails = 0;
          last_state_change = 0;
        })
        h.statuses;
}

-- AddCheck.
unfoldable pub add_check : HealthChecker → String → HealthChecker
unfolding add_check_with_severity
add_check h name = add_check_with_severity h name critical

-- RemoveCheck.
unfoldable pub remove_check : HealthChecker → String → HealthChecker
remove_check h name = record h {
  checks = delete name h.checks;
  statuses = delete name h.statuses;
  failure_counts = delete name h.failure_counts;
}

-- Start; the loop that it starts is a sequence of `run_checks`.
unfoldable pub start : HealthChecker → HealthChecker
start h = if h.started then h else record h { started = true }

-- Stop: what stopOnce does, and what follows the wait for the loop, which may end a round first.
unfoldable pub begin_stop : HealthChecker → ℕ → HealthChecker
begin_stop h now =
    if h.stopped
    then h
    else record (set_state h OperationalState.shutting_down now) { stopped = true }

unfoldable pub finish_stop : HealthChecker → ℕ → HealthChecker
finish_stop h now = set_state h OperationalState.offline now

unfoldable pub stop : HealthChecker → ℕ → HealthChecker
stop h now = if h.started then finish_stop (begin_stop h now) now else h
