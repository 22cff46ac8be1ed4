-- ===== src/Health.antt =====
-- internal/health/checker.go: the health checker. Times are numbers; the logger and the HTTP body
-- are left out; the callback's calls are recorded in `notified`.
pub mod Rounds
pub mod Registry
pub mod Handlers
pub mod Flapping
pub mod States
pub mod Overall
use protocol_gateway.Prelude.{
  ℕ, ◌+◌, Bool, true, false, ◌&&◌, ◌||◌, not, String, List, [], ◌∷◌, ◌++◌, Option, none, some, leb,
  ◌==◌, if◌then◌else◌,
}
use protocol_gateway.Prelude.Dict.{lookup, insert, delete}

pub data OperationalState : Type 0 where
  starting running degraded recovering shutting_down offline : OperationalState

pub data CheckSeverity : Type 0 where
  info warning critical : CheckSeverity

-- The strings "unknown", "healthy", "degraded" and "unhealthy" of a check or of the service.
pub data Status : Type 0 where
  unknown healthy degraded unhealthy : Status

-- The fields of CheckStatus but for its name, which is the key, and its severity as a string.
pub record CheckStatus : Type 0 where
  pub status : Status
  pub severity : CheckSeverity
  pub error : Option String
  pub last_check : ℕ
  pub consecutive_fails : ℕ
  pub last_state_change : ℕ

pub record HealthResponse : Type 0 where
  pub status : Status
  pub state : OperationalState
  pub checks : List (String × CheckStatus)

pub record HealthChecker : Type 0 where
  pub failure_threshold : ℕ
  pub recovery_threshold : ℕ
  pub checks : List (String × CheckSeverity)
  pub statuses : List (String × CheckStatus)
  pub cached_result : Option HealthResponse
  pub state : OperationalState
  pub last_state_change : ℕ
  pub has_callback : Bool
  pub notified : List (OperationalState × OperationalState)
  pub failure_counts : List (String × ℕ)
  pub started : Bool
  pub stopped : Bool  -- stopOnce has run

abbrev default_to : ℕ → ℕ → ℕ
default_to d n = if n == 0 then d else n

-- NewChecker.
unfoldable pub new_checker : ℕ → ℕ → ℕ → HealthChecker
new_checker failure_threshold recovery_threshold now = record {
  failure_threshold = default_to 3 failure_threshold;
  recovery_threshold = default_to 2 recovery_threshold;
  checks = [];
  statuses = [];
  cached_result = none;
  state = OperationalState.starting;
  last_state_change = now;
  has_callback = false;
  notified = [];
  failure_counts = [];
  started = false;
  stopped = false;
}

same_state : OperationalState → OperationalState → Bool
same_state OperationalState.starting OperationalState.starting = true
same_state OperationalState.running OperationalState.running = true
same_state OperationalState.degraded OperationalState.degraded = true
same_state OperationalState.recovering OperationalState.recovering = true
same_state OperationalState.shutting_down OperationalState.shutting_down = true
same_state OperationalState.offline OperationalState.offline = true
same_state _ _ = false

-- SetState.
unfoldable pub set_state : HealthChecker → OperationalState → ℕ → HealthChecker
unfolding same_state
set_state h s now = if same_state h.state s then h else record h {
  state = s;
  last_state_change = now;
  notified = if h.has_callback then h.notified ++ (h.state, s) ∷ [] else h.notified;
}

-- OnStateChange.
unfoldable pub on_state_change : HealthChecker → HealthChecker
on_state_change h = record h { has_callback = true }

-- The switch of updateOperationalState.
unfoldable pub next_state : OperationalState → Status → OperationalState
next_state OperationalState.starting healthy = OperationalState.running
next_state OperationalState.starting degraded = OperationalState.degraded
next_state OperationalState.starting _ = OperationalState.degraded
next_state OperationalState.running degraded = OperationalState.degraded
next_state OperationalState.running unhealthy = OperationalState.degraded
next_state OperationalState.running _ = OperationalState.running
next_state OperationalState.degraded healthy = OperationalState.recovering
next_state OperationalState.degraded _ = OperationalState.degraded
next_state OperationalState.recovering healthy = OperationalState.running
next_state OperationalState.recovering _ = OperationalState.degraded
next_state OperationalState.shutting_down _ = OperationalState.shutting_down
next_state OperationalState.offline _ = OperationalState.offline

unfoldable pub update_operational_state : HealthChecker → Status → HealthChecker
update_operational_state h s = record h { state = next_state h.state s }

-- failureCounts[name]: 0 for a missing key.
abbrev pub count_of : String → List (String × ℕ) → ℕ
count_of name m = elim (lookup name m) [ none ↦ 0 | some n ↦ n ]

is_status : Status → Status → Bool
is_status unknown unknown = true
is_status healthy healthy = true
is_status degraded degraded = true
is_status unhealthy unhealthy = true
is_status _ _ = false

-- `oldStatus != nil && oldStatus.Status == s`.
was : Status → Option CheckStatus → Bool
unfolding is_status
was s none = false
was s (some c) = is_status c.status s

changed_at : Option CheckStatus → ℕ
changed_at none = 0
changed_at (some c) = c.last_state_change

-- The status after an error, with `fails` errors in a row.
failed_status : ℕ → CheckSeverity → Option CheckStatus → ℕ → String → ℕ → CheckStatus
unfolding was changed_at
failed_status threshold severity old fails e now =
    if leb threshold fails
    then record {
      status = unhealthy;
      severity = severity;
      error = some e;
      last_check = now;
      consecutive_fails = fails;
      last_state_change = if was unhealthy old then changed_at old else now;
    }
    else record {
      status = if was healthy old then healthy else degraded;
      severity = severity;
      error = some e;
      last_check = now;
      consecutive_fails = fails;
      last_state_change = changed_at old;
    }

-- The status after a success that follows `previous` errors in a row.
passed_status : ℕ → CheckSeverity → Option CheckStatus → ℕ → ℕ → CheckStatus
unfolding was changed_at
passed_status threshold severity old previous now = record {
  status = healthy;
  severity = severity;
  error = none;
  last_check = now;
  consecutive_fails = 0;
  last_state_change =
      if leb threshold previous then now else if was healthy old then changed_at old else now;
}

store_status : HealthChecker → String → ℕ → CheckStatus → HealthChecker
store_status h name fails c = record h {
  failure_counts = insert name fails h.failure_counts;
  statuses = insert name c h.statuses;
}

-- updateCheckStatus.
unfoldable pub update_check_status :
    HealthChecker → String → CheckSeverity → Option String → ℕ → HealthChecker × CheckStatus
unfolding failed_status passed_status store_status
update_check_status h name severity (some e) now =
    let fails = count_of name h.failure_counts + 1 in
    let c = failed_status h.failure_threshold severity (lookup name h.statuses) fails e now in
    (store_status h name fails c, c)
update_check_status h name severity none now =
    let previous = count_of name h.failure_counts in
    let c = passed_status h.failure_threshold severity (lookup name h.statuses) previous now in
    (store_status h name 0 c, c)
