-- ===== src/Modbus/Client.antt =====
-- The state of a Modbus client (internal/adapter/modbus/types.go, health.go and client.go): the
-- connection, the counters and the diagnostics for each tag. Times are left out; the counters are
-- 64-bit and are left unbounded.
use protocol_gateway.Prelude.{
  ℕ, ◌+◌, Bool, true, false, String, List, Option, none, some, if◌then◌else◌,
}
use protocol_gateway.Prelude.Dict.{lookup, insert}
use protocol_gateway.Modbus.Errors.{ClientError}

pub record TagDiagnostic : Type 0 where
  pub read_count : ℕ
  pub error_count : ℕ
  pub last_error : Option ClientError

pub record Client : Type 0 where
  pub device_id : String
  pub max_retries : ℕ
  pub connected : Bool
  pub has_client : Bool  -- `client` and `handler` are not nil
  pub read_count : ℕ
  pub write_count : ℕ
  pub error_count : ℕ
  pub retry_count : ℕ
  pub consecutive_failures : ℕ
  pub tag_diagnostics : List (String × TagDiagnostic)

unfoldable pub new_tag_diagnostic : TagDiagnostic
new_tag_diagnostic = record { read_count = 0; error_count = 0; last_error = none }

-- getOrCreateTagDiagnostic; the created entry is stored by the callers below.
unfoldable pub diagnostic : String → Client → TagDiagnostic
unfolding new_tag_diagnostic
diagnostic id c = elim (lookup id c.tag_diagnostics) [ none ↦ new_tag_diagnostic | some d ↦ d ]

unfoldable pub record_tag_success : String → Client → Client
unfolding diagnostic
record_tag_success id c =
    let d = diagnostic id c in
    record c {
      tag_diagnostics = insert id (record d { read_count = d.read_count + 1 }) c.tag_diagnostics;
    }

unfoldable pub record_tag_error : String → ClientError → Client → Client
unfolding diagnostic
record_tag_error id e c =
    let d = diagnostic id c in
    record c {
      tag_diagnostics =
          insert id (record d { error_count = d.error_count + 1; last_error = some e })
            c.tag_diagnostics;
    }

-- Connect: `dialed` is whether the handler connects before the context ends.
unfoldable pub connect : Bool → Client → Client × Bool
connect dialed c =
    if c.connected
    then (c, true)
    else if dialed
    then (record c { has_client = true; connected = true }, true)
    else (c, false)

unfoldable pub disconnect : Client → Client
disconnect c = if c.connected then record c { connected = false; has_client = false } else c

unfoldable pub reconnect : Bool → Client → Client
unfolding connect disconnect
reconnect dialed c = (connect dialed (disconnect c)).0

-- The outcome of a request is counted.
unfoldable pub count_failure : Client → Client
count_failure c = record c { consecutive_failures = c.consecutive_failures + 1 }

unfoldable pub count_success : Client → Client
count_success c = record c { consecutive_failures = 0 }
