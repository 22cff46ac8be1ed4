-- ===== src/Modbus/Single/Recovery.antt =====
-- ReadTag over a device whose attempts fail.
use protocol_gateway.Prelude.{
  ℕ, zero, suc, ◌+◌, ◌≤◌, ◌<◌, ◌≡◌, refl, ap, ◌∙◌, true, false, Bool-cases, none, some, List, ◌++◌,
  inl, inr, arith,
}
use protocol_gateway.Prelude.Text.{bytes}
use protocol_gateway.Domain.Errors.{Error, modbus_protocol_limit, ok}
use protocol_gateway.Domain.Float.{Floats}
use protocol_gateway.Domain.Tag.{Tag}
use protocol_gateway.Domain.Value.{Value}
use protocol_gateway.Domain.DataPoint.{DataPoint, good, bad, acquire_data_point, with_raw_value}
use protocol_gateway.Modbus.Convert.{parse_value}
use protocol_gateway.Modbus.Errors.{
  wrapped, IoError, io_text, ClientError, done, contains, connection_words, translate_modbus_error,
  is_retryable_error, is_timeout, is_connection_error, error_quality,
}
use protocol_gateway.Modbus.Errors.Retry.{translated_retry}
use protocol_gateway.Modbus.Client.{
  Client, connect, disconnect, reconnect, count_failure, count_success, record_tag_error,
}
use protocol_gateway.Modbus.Range.{Reply, bytes_read, failed, create_error_data_point}
use protocol_gateway.Modbus.Single.{
  count_retry, Surroundings, validate_protocol_limits, is_readable_type, on_answer, read_registers,
  LoopEnd, got, last_error, recover, finish, proceed, retry, conclude, parsed, count_error,
  read_tag,
}

-- What the library answers to the request of a tag at an attempt.
abbrev pub reply : Surroundings → Tag → ℕ → Reply
reply env t k = env.device k t.register_type t.address t.register_count

-- The attempt fails with a connection error, the reconnect succeeds, and the context goes on.
pub record Transient (env : Surroundings) (t : Tag) (k : ℕ) : Type 0 where
  pub cause : IoError
  pub refused : reply env t k ≡ failed cause
  pub worded : contains (bytes "read operation failed: " ++ io_text cause) connection_words ≡ true
  pub dialed_again : env.dialed k ≡ true
  pub goes_on : env.ended (k + 1) ≡ none

-- The tag is within the limits of the protocol and of a register type that can be read.
pub record IsRequest (t : Tag) : Type 0 where
  pub in_limits : validate_protocol_limits t ≡ none
  pub typed : is_readable_type t.register_type ≡ true

read_registers-reply :
    (env : Surroundings) (t : Tag) (k : ℕ) (c : Client)
    → IsRequest t
    → c.has_client ≡ true
    → read_registers env t k c ≡ on_answer c (reply env t k)
unfolding read_registers
read_registers-reply env t k c q h = simp (h, q.in_limits, q.typed) refl

answered_attempt :
    (env : Surroundings) (t : Tag) (k : ℕ) (c : Client) (raw : List ℕ)
    → IsRequest t
    → c.has_client ≡ true
    → reply env t k ≡ bytes_read raw
    → read_registers env t k c ≡ (count_success c, inr raw)
unfolding on_answer
answered_attempt env t k c raw q h e = read_registers-reply env t k c q h ∙ ap (on_answer c) e

failed_attempt :
    (env : Surroundings) (t : Tag) (k : ℕ) (c : Client) (e : IoError)
    → IsRequest t
    → c.has_client ≡ true
    → reply env t k ≡ failed e
    → read_registers env t k c ≡ (count_failure c, inl (translate_modbus_error e))
unfolding on_answer
failed_attempt env t k c e q h r = read_registers-reply env t k c q h ∙ ap (on_answer c) r

disconnected : (c : Client) → (disconnect c).connected ≡ false
unfolding disconnect
disconnected c = elim (Bool-cases c.connected) [ inl b ↦ simp b refl | inr b ↦ simp b refl ]

connected_again : (c : Client) → c.connected ≡ false → (connect true c).0.has_client ≡ true
unfolding connect
connected_again c e = simp e refl

reconnected : (c : Client) → (reconnect true c).has_client ≡ true
unfolding reconnect
reconnected c = connected_again (disconnect c) (disconnected c)

-- The client after a transient failure, with its retry counted.
after_failure :
    (env : Surroundings) (t : Tag) (k : ℕ) (c : Client) (w : Transient env t k)
    → (count_retry (recover (env.dialed k) (translate_modbus_error w.cause) c)).has_client ≡ true
unfolding recover is_connection_error translate_modbus_error
after_failure env t k c w = rw (recover, w.worded, w.dialed_again) (reconnected c)

retry-got :
    (env : Surroundings) (t : Tag) (raw : List ℕ) (d rest k : ℕ) (c : Client)
    → IsRequest t
    → d ≤ rest
    → ((i : ℕ) → i < k + d → Transient env t i)
    → reply env t (k + d) ≡ bytes_read raw
    → c.has_client ≡ true
    → (retry env (read_registers env t) rest k c).1 ≡ got raw
unfolding retry finish proceed
retry-got env t raw zero zero k c q h fails answer up =
    rw (answered_attempt env t k c raw q up (ap (reply env t) (omega arith) ∙ answer)) refl
retry-got env t raw zero (suc rest) k c q h fails answer up =
    rw (answered_attempt env t k c raw q up (ap (reply env t) (omega arith) ∙ answer)) refl
retry-got env t raw (suc d) zero k c q h fails answer up = absurd (omega arith)
retry-got env t raw (suc d) (suc rest) k c q h fails answer up =
    let w = fails k (omega arith) in
    let e = translate_modbus_error w.cause in
    let retried = (translated_retry w.cause).0 ∙ w.worded in
    let c' = count_retry (recover (env.dialed k) e (count_failure c)) in
    let again =
      retry-got env t raw d rest (k + 1) c' q (omega arith) (λ i l. fails i (omega arith))
        (ap (reply env t) (omega arith) ∙ answer) (after_failure env t k (count_failure c) w) in
    rw (failed_attempt env t k c w.cause q up w.refused) (rw (proceed, retried, w.goes_on) again)

conclude-got :
    (fl : Floats) (t : Tag) (c : Client) (end : LoopEnd (List ℕ)) (raw : List ℕ) (v : Value)
    → end ≡ got raw
    → (parse_value raw t).0 ≡ ok v
    → (p : DataPoint) × ((conclude fl t c end).1 ≡ done (some p, none))
      × (p.quality ≡ good)
      × (p.raw_value ≡ v)
unfolding conclude parsed with_raw_value acquire_data_point
conclude-got fl t c end raw v e h = rw (e, h) (_, refl, refl, refl)

-- A connected client reads a tag that is within the protocol's limits although attempts fail: if the
-- first `d` attempts, no more than the configured retries, each fail with a connection error
-- after which the reconnect succeeds and the context goes on, and the next one is answered with
-- bytes that parse, then the tag is read without an error, and with the parsed value as its raw value.
pub read_tag_recovers :
    (fl : Floats) (t : Tag) (env : Surroundings) (c : Client) (d : ℕ) (raw : List ℕ) (v : Value)
    → c.connected ≡ true
    → c.has_client ≡ true
    → IsRequest t
    → d ≤ c.max_retries
    → ((i : ℕ) → i < d → Transient env t i)
    → reply env t d ≡ bytes_read raw
    → (parse_value raw t).0 ≡ ok v
    → (p : DataPoint) × ((read_tag fl t env c).1 ≡ done (some p, none))
      × (p.quality ≡ good)
      × (p.raw_value ≡ v)
unfolding read_tag
read_tag_recovers fl t env c d raw v connected up q h fails answer parses =
    let e =
      retry-got env t raw d c.max_retries 0 c q h (λ i l. fails i (omega arith))
        (ap (reply env t) (omega arith) ∙ answer) up in
    simp connected (conclude-got fl t _ _ raw v e parses)

retry_refused :
    (env : Surroundings) (t : Tag) (rest : ℕ) (c c' : Client) (x : ClientError)
    → read_registers env t 0 c ≡ (c', inl x)
    → is_retryable_error x ≡ false
    → retry env (read_registers env t) rest 0 c ≡ (c', last_error x)
unfolding retry finish
retry_refused env t zero c c' x e h = rw e (rw h refl)
retry_refused env t (suc rest) c c' x e h = rw e (rw (proceed, h) refl)

-- A read whose first attempt fails with an error without one of the four connection phrases, as a
-- time-out or an end of file of the network does, is not retried at all, whatever is configured: it
-- returns an error, and a point with the quality `bad`.
pub read_tag_unretried :
    (fl : Floats) (t : Tag) (env : Surroundings) (c : Client) (e : IoError)
    → c.connected ≡ true
    → c.has_client ≡ true
    → IsRequest t
    → reply env t 0 ≡ failed e
    → contains (bytes "read operation failed: " ++ io_text e) connection_words ≡ false
    → (p : DataPoint) × (x : ClientError) × ((read_tag fl t env c).1 ≡ done (some p, some x))
      × (p.quality ≡ bad)
      × ((read_tag fl t env c).0.retry_count ≡ c.retry_count)
unfolding read_tag conclude count_error count_failure record_tag_error create_error_data_point
    acquire_data_point
read_tag_unretried fl t env c e connected up q refused worded =
    let x = translate_modbus_error e in
    let (a, b) = translated_retry e in
    let once =
      retry_refused env t c.max_retries c (count_failure c) x
        (failed_attempt env t 0 c e q up refused) (a ∙ worded) in
    simp (connected, once) (_, x, refl, b ∙ (rw (a, worded) refl), refl)

text_unretried :
    (e : Error) (s : List ℕ)
    → contains s connection_words ≡ false
    → is_retryable_error (wrapped e s) ≡ false
unfolding is_retryable_error is_timeout is_connection_error
text_unretried e s h = rw h refl

text_bad :
    (e : Error) (s : List ℕ)
    → contains s connection_words ≡ false
    → error_quality (wrapped e s) ≡ bad
unfolding error_quality is_timeout is_connection_error
text_bad e s h = rw (error_quality, h) refl

limit_refused :
    (t : Tag)
    → 1 ≤ t.register_count
    → t.address + t.register_count ≡ 65536
    → validate_protocol_limits t ≡ some modbus_protocol_limit
unfolding validate_protocol_limits
limit_refused t n e = ground arith

limit_attempt :
    (env : Surroundings) (t : Tag) (c : Client)
    → c.has_client ≡ true
    → 1 ≤ t.register_count
    → t.address + t.register_count ≡ 65536
    → read_registers env t 0 c
      ≡ (c, inl (wrapped modbus_protocol_limit (env.detail modbus_protocol_limit t)))
unfolding read_registers
limit_attempt env t c up n e = simp (up, limit_refused t n e) refl

-- A tag that ends at the last address of the device, 65535, cannot be read: whatever the
-- device would answer, the read returns an error (if the text of the refusal has none of the four
-- connection phrases) without a retry.
pub read_tag_last_register :
    (fl : Floats) (t : Tag) (env : Surroundings) (c : Client)
    → c.connected ≡ true
    → c.has_client ≡ true
    → 1 ≤ t.register_count
    → t.address + t.register_count ≡ 65536
    → contains (env.detail modbus_protocol_limit t) connection_words ≡ false
    → (p : DataPoint) × ((read_tag fl t env c).1
        ≡ done (some p, some (wrapped modbus_protocol_limit (env.detail modbus_protocol_limit t))))
      × (p.quality ≡ bad)
      × ((read_tag fl t env c).0.retry_count ≡ c.retry_count)
unfolding read_tag conclude count_error record_tag_error create_error_data_point acquire_data_point
read_tag_last_register fl t env c connected up some_register last worded =
    let x = wrapped modbus_protocol_limit (env.detail modbus_protocol_limit t) in
    let once =
      retry_refused env t c.max_retries c c x (limit_attempt env t c up some_register last)
        (text_unretried modbus_protocol_limit _ worded) in
    simp (connected, once) (_, refl, text_bad modbus_protocol_limit _ worded, refl)
