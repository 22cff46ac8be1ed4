-- ===== src/Modbus/Breaker.antt =====
-- The circuit breaker of a device (internal/adapter/modbus/pool.go, createCircuitBreaker). The
-- breaker itself is the package gobreaker, a parameter: `Breakers` is what the pool calls of it.
use protocol_gateway.Prelude.{ℕ, Bool, true, ◌≡◌, ◌&&◌, Option, none, some, ltb, leb, if◌then◌else◌}
use protocol_gateway.Domain.Float.{Floats}
use protocol_gateway.Domain.Device.{Device, CircuitBreakerConfig}

-- gobreaker.Settings, less the name and the callback that only logs. Times are in nanoseconds.
pub record Settings : Type 0 where
  pub max_requests : ℕ
  pub interval : ℕ
  pub timeout : ℕ
  pub ready_to_trip : ℕ → ℕ → Bool  -- the requests and the failures counted

-- Whether a request is let through: ErrOpenState and ErrTooManyRequests otherwise.
pub data Admission : Type 0 where
  admitted open_state too_many_requests : Admission

-- What Execute does before the request, and after it with its success; and State() == StateOpen.
pub record Breakers : Type 1 where
  pub Breaker : Type 0
  pub new_breaker : ℕ → Settings → Breaker
  pub before_request : ℕ → Breaker → Breaker × Admission
  pub after_request : ℕ → Bool → Breaker → Breaker
  pub is_open : ℕ → Breaker → Bool

-- "ErrOpenState is returned when the CB state is open."
abbrev pub RejectsWhenOpen : Breakers → Type 0
RejectsWhenOpen gb =
    (now : ℕ) (b : gb.Breaker) → gb.is_open now b ≡ true → (gb.before_request now b).1 ≡ open_state

-- `if override > 0`.
abbrev override : Option CircuitBreakerConfig → (CircuitBreakerConfig → ℕ) → ℕ → ℕ
override none field default = default
override (some cb) field default = if ltb 0 (field cb) then field cb else default

-- A float is above zero where its bits are between zero's and infinity's.
abbrev override_ratio : Option CircuitBreakerConfig → ℕ → ℕ
override_ratio none default = default
override_ratio (some cb) default =
    if ltb 0 cb.failure_ratio && leb cb.failure_ratio 0x7FF0_0000_0000_0000
    then cb.failure_ratio
    else default

-- 0.6 as a float64.
abbrev default_failure_ratio : ℕ
default_failure_ratio = 0x3FE3_3333_3333_3333

-- Floats that are not negative are in the order of their bits.
unfoldable pub breaker_settings : Floats → Device → Settings
breaker_settings fl d =
    let cb = d.connection.circuit_breaker in
    let threshold = override cb (λ c. c.failure_threshold) 10 in
    let limit = override_ratio cb default_failure_ratio in
    record {
      max_requests = override cb (λ c. c.max_requests) 3;
      interval = override cb (λ c. c.interval) 10_000_000_000;
      timeout = override cb (λ c. c.timeout) 30_000_000_000;
      ready_to_trip = λ requests failures.
          leb threshold requests && leb limit (fl.div (fl.of_uint failures) (fl.of_uint requests));
    }
