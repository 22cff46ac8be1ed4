-- ===== src/Health/Rounds.antt =====
-- runChecks of internal/health/checker.go: one round of all checks.
use protocol_gateway.Health.{
  HealthChecker, CheckSeverity, CheckStatus, Status, update_check_status, update_operational_state,
  critical, warning, healthy, degraded, unhealthy,
}
use protocol_gateway.Prelude.{
  ℕ, Bool, true, false, String, List, [], ◌∷◌, Option, some, if◌then◌else◌,
}
use protocol_gateway.Prelude.Dict.{insert}

-- hasCriticalFailure and hasWarningFailure.
pub record Failures : Type 0 where
  pub critical_failure : Bool
  pub warning_failure : Bool

unfoldable pub note_failure : Status → CheckSeverity → Failures → Failures
note_failure unhealthy critical f = record f { critical_failure = true }
note_failure unhealthy warning f = record f { warning_failure = true }
note_failure _ _ f = f

unfoldable pub overall_status : Failures → Status
overall_status f =
    if f.critical_failure then unhealthy else if f.warning_failure then degraded else healthy

-- What the goroutines of one round have done so far.
pub record Round : Type 0 where
  pub checker : HealthChecker
  pub results : List (String × CheckStatus)
  pub failures : Failures

-- The goroutine of one check; `probe name` is the error that the check returns.
unfoldable pub run_check : (String → Option String) → ℕ → String × CheckSeverity → Round → Round
unfolding note_failure
run_check probe now (name, severity) r =
    let (h, c) = update_check_status r.checker name severity (probe name) now in
    record r {
      checker = h;
      results = insert name c r.results;
      failures = note_failure c.status severity r.failures;
    }

-- The goroutines take the locks in some order: that of the list.
unfoldable pub run_all :
    (String → Option String) → ℕ → List (String × CheckSeverity) → Round → Round
unfolding run_check
run_all probe now [] r = r
run_all probe now (c ∷ cs) r = run_all probe now cs (run_check probe now c r)

unfoldable pub finish_round : Round → HealthChecker
finish_round r =
    let s = overall_status r.failures in
    let h = update_operational_state r.checker s in
    record h { cached_result = some (record { status = s; state = h.state; checks = r.results }) }

abbrev pub begin_round : HealthChecker → Round
begin_round h = record {
  checker = h;
  results = [];
  failures = record { critical_failure = false; warning_failure = false };
}

-- runChecks, with the order in which the goroutines run.
unfoldable pub run_checks :
    (List (String × CheckSeverity) → List (String × CheckSeverity))
    → (String → Option String)
    → ℕ
    → HealthChecker
    → HealthChecker
run_checks order probe now h = finish_round (run_all probe now (order h.checks) (begin_round h))
