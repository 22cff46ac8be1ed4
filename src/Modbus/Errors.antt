-- ===== src/Modbus/Errors.antt =====
-- How the Modbus client sorts errors (internal/adapter/modbus/client.go, from isRetryableError to
-- translateModbusError, and createErrorDataPoint).
pub mod Retry
use protocol_gateway.Prelude.{
  ◌≡◌, refl, ℕ, Bool, true, false, ◌&&◌, ◌||◌, String, List, [], ◌∷◌, ◌++◌, ◌==◌,
}
use protocol_gateway.Prelude.Text.{bytes}
use protocol_gateway.Domain.Errors.{Error, message, read_failed}
use protocol_gateway.Domain.DataPoint.{Quality, bad, not_connected, timeout}

-- What the network library hands over: an error with `Timeout()`, an end of file, or any other;
-- each with its text.
pub data IoError : Type 0 where
  net_error : Bool → List ℕ → IoError
  eof unexpected_eof : List ℕ → IoError
  plain : List ℕ → IoError

-- An error of the client. `wrapped e text` is `fmt.Errorf("%w: %v", e, err)`: of `err` it keeps
-- the text alone, neither its type nor its identity.
pub data ClientError : Type 0 where
  domain : Error → ClientError
  wrapped : Error → List ℕ → ClientError
  io : IoError → ClientError

abbrev pub io_text : IoError → List ℕ
io_text (net_error t s) = s
io_text (eof s) = s
io_text (unexpected_eof s) = s
io_text (plain s) = s

-- s[i:i+len(sub)] == sub, at the front of what is left of s.
starts_with : List ℕ → List ℕ → Bool
starts_with [] s = true
starts_with (c ∷ sub) [] = false
starts_with (c ∷ sub) (d ∷ s) = c == d && starts_with sub s

-- The loop over i.
occurs : List ℕ → List ℕ → Bool
unfolding starts_with
occurs sub [] = starts_with sub []
occurs sub (c ∷ s) = starts_with sub (c ∷ s) || occurs sub s

unfoldable pub contains : List ℕ → List (List ℕ) → Bool
unfolding occurs
contains s [] = false
contains s (sub ∷ subs) = occurs sub s || contains s subs

abbrev pub connection_words : List (List ℕ)
connection_words =
    bytes "connection reset"
    ∷ bytes "broken pipe"
    ∷ bytes "connection refused"
    ∷ bytes "no route to host"
    ∷ []

-- err.(net.Error): a type assertion looks at the error itself and not at what it wraps.
unfoldable pub is_timeout : ClientError → Bool
is_timeout (io (net_error t s)) = t
is_timeout (io (eof s)) = false
is_timeout (io (unexpected_eof s)) = false
is_timeout (io (plain s)) = false
is_timeout (domain e) = false
is_timeout (wrapped e s) = false

unfoldable pub is_connection_error : ClientError → Bool
is_connection_error (io (net_error t s)) = true
is_connection_error (io (eof s)) = true
is_connection_error (io (unexpected_eof s)) = true
is_connection_error (io (plain s)) = contains s connection_words
is_connection_error (domain e) = contains (bytes (message e)) connection_words
is_connection_error (wrapped e s) = contains s connection_words

unfoldable pub is_retryable_error : ClientError → Bool
is_retryable_error e = is_timeout e || is_connection_error e

-- The text of the wrapped error follows the text of the domain error and a colon.
unfoldable pub translate_modbus_error : IoError → ClientError
translate_modbus_error e = wrapped read_failed (bytes "read operation failed: " ++ io_text e)

-- The quality of an error point: the first case that applies.
unfoldable pub error_quality : ClientError → Quality
error_quality e = elim (is_timeout e) [
  | true ↦ timeout
  | false ↦ elim (is_connection_error e) [ true ↦ not_connected | false ↦ bad ]
]

-- A call of the client returns a value or an error, or it panics.
pub data Outcome {ℓ} (A : Type ℓ) : Type ℓ where
  done : A → Outcome A
  fails : ClientError → Outcome A
  panics : Outcome A

infixl 5 ◌>>=◌
abbrev pub ◌>>=◌ {ℓ κ} : {A : Type ℓ} {B : Type κ} → Outcome A → (A → Outcome B) → Outcome B
done a >>= f = f a
fails e >>= f = fails e
panics >>= f = panics

-- What a successful chain did first, and then.
pub bind-done {ℓ κ} :
    {A : Type ℓ} {B : Type κ} (m : Outcome A) (k : A → Outcome B) {b : B}
    → (m >>= k) ≡ done b
    → (a : A) × (m ≡ done a) × (k a ≡ done b)
bind-done (done a) k h = (a, refl, h)
bind-done (fails e) k h = cc
bind-done panics k h = cc
