-- ===== src/Modbus/Single.antt =====
-- Reading one tag with retries (internal/adapter/modbus/client.go, ReadTag, readRegisters and
-- validateProtocolLimits). The environment of a call is a function of the attempt, counted from 0.
pub mod Retries
pub mod Recovery
use protocol_gateway.Prelude.{
  ℕ, zero, suc, ◌+◌, Bool, true, false, ◌||◌, ◌&&◌, Option, none, some, List, ◌++◌, ◌⊎◌, inl, inr,
  ltb, ◌==◌, if◌then◌else◌,
}
use protocol_gateway.Domain.Errors.{
  Error, Result, ok, err, panic, connection_closed, invalid_register_count, invalid_register_type,
  modbus_protocol_limit,
}
use protocol_gateway.Domain.Float.{Floats}
use protocol_gateway.Domain.Tag.{Tag, RegisterType}
use protocol_gateway.Domain.Value.{Value}
use protocol_gateway.Domain.DataPoint.{DataPoint, good, acquire_data_point, with_raw_value}
use protocol_gateway.Modbus.Convert.{parse_value, apply_scaling}
use protocol_gateway.Modbus.Errors.{
  ClientError, Outcome, done, fails, panics, domain, wrapped, translate_modbus_error,
  is_retryable_error, is_connection_error,
}
use protocol_gateway.Modbus.Client.{
  Client, reconnect, count_failure, count_success, record_tag_success, record_tag_error,
}
use protocol_gateway.Modbus.Range.{Device, Reply, bytes_read, failed, create_error_data_point}

-- What surrounds a call: the library at each attempt, whether the reconnect after an attempt
-- succeeds, whether the context has ended (and how) before an attempt, and the text that `fmt` makes
-- of an error and its details.
pub record Surroundings : Type 0 where
  pub device : ℕ → Device
  pub dialed : ℕ → Bool
  pub ended : ℕ → Option ClientError
  pub detail : Error → Tag → List ℕ

max_count : RegisterType → Option ℕ
max_count RegisterType.holding_register = some 125
max_count RegisterType.input_register = some 125
max_count RegisterType.coil = some 2000
max_count RegisterType.discrete_input = some 2000
max_count _ = none

exceeds : ℕ → Option ℕ → Bool
exceeds n none = false
exceeds n (some m) = ltb m n

-- validateProtocolLimits.
unfoldable pub validate_protocol_limits : Tag → Option Error
unfolding max_count exceeds
validate_protocol_limits t =
    if t.register_count == 0
    then some invalid_register_count
    else if exceeds t.register_count (max_count t.register_type)
        || ltb 65535 (t.address + t.register_count)
    then some modbus_protocol_limit
    else none

unfoldable pub is_readable_type : RegisterType → Bool
is_readable_type RegisterType.coil = true
is_readable_type RegisterType.discrete_input = true
is_readable_type RegisterType.holding_register = true
is_readable_type RegisterType.input_register = true
is_readable_type _ = false

on_answer : Client → Reply → Client × (ClientError ⊎ List ℕ)
on_answer c (failed e) = (count_failure c, inl (translate_modbus_error e))
on_answer c (bytes_read raw) = (count_success c, inr raw)

module _ (env : Surroundings) (t : Tag) where
  -- readRegisters.
  unfoldable pub read_registers : ℕ → Client → Client × (ClientError ⊎ List ℕ)
  unfolding is_readable_type on_answer
  read_registers k c =
      if c.has_client
      then elim (validate_protocol_limits t) [
        | some e ↦ (c, inl (wrapped e (env.detail e t)))
        | none ↦
            if is_readable_type t.register_type
            then on_answer c (env.device k t.register_type t.address t.register_count)
            else (c, inl (domain invalid_register_type))
      ]
      else (c, inl (domain connection_closed))

-- The end of the retry loop: an answer, the last error, or the error of the context.
pub data LoopEnd {ℓ} (A : Type ℓ) : Type ℓ where
  got : A → LoopEnd A
  last_error : ClientError → LoopEnd A
  context_ended : ClientError → LoopEnd A

-- After a failure that may be retried.
unfoldable pub recover : Bool → ClientError → Client → Client
recover dialed e c = if is_connection_error e then reconnect dialed c else c

abbrev pub count_retry : Client → Client
count_retry c = record c { retry_count = c.retry_count + 1 }

-- The loop of ReadTag and WriteTag around one attempt: `rest` retries are left after attempt `k`.
module _ {ℓ} {A : Type ℓ} (env : Surroundings)
    (attempt : ℕ → Client → Client × (ClientError ⊎ A)) where
  -- After the last attempt that is left.
  unfoldable pub finish : ℕ → Client → ClientError ⊎ A → Client × LoopEnd A
  finish k c (inr a) = (c, got a)
  finish k c (inl e) =
      (if is_retryable_error e then recover (env.dialed k) e c else c, last_error e)

  -- After an attempt that `next` may follow.
  unfoldable pub proceed :
      (Client → Client × LoopEnd A) → ℕ → Client → ClientError ⊎ A → Client × LoopEnd A
  proceed next k c (inr a) = (c, got a)
  proceed next k c (inl e) = elim (is_retryable_error e) [
    | false ↦ (c, last_error e)
    | true ↦
        let c' = count_retry (recover (env.dialed k) e c) in
        elim (env.ended (k + 1)) [ some x ↦ (c', context_ended x) | none ↦ next c' ]
  ]

  unfoldable pub retry : ℕ → ℕ → Client → Client × LoopEnd A
  unfolding finish proceed
  retry zero k c = let (c', out) = attempt k c in finish k c' out
  retry (suc rest) k c = let (c', out) = attempt k c in proceed (retry rest (k + 1)) k c' out

-- What ReadTag returns: a point or none, and an error or none.
abbrev pub Reading : Type 0
Reading = Option DataPoint × Option ClientError

module _ (fl : Floats) (t : Tag) where
  parsed : Client → Result Value → Client × Outcome Reading
  parsed c (ok v) =
      let p = acquire_data_point c.device_id t.id "" (apply_scaling fl v t) t.unit good in
      (c, done (some (with_raw_value p v), none))
  parsed c (err e) = (c, done (some (create_error_data_point c t (domain e)), some (domain e)))
  parsed c panic = (c, panics)

  count_error : ClientError → Client → Client
  count_error e c = record_tag_error t.id e (record c { error_count = c.error_count + 1 })

  count_read : Client → Client
  count_read c = record_tag_success t.id (record c { read_count = c.read_count + 1 })

  -- What follows the loop; the answer is counted before it is parsed.
  conclude : Client → LoopEnd (List ℕ) → Client × Outcome Reading
  unfolding parsed count_error count_read
  conclude c (got raw) = parsed (count_read c) (parse_value raw t).0
  conclude c (last_error e) = (count_error e c, done (some (create_error_data_point c t e), some e))
  conclude c (context_ended e) = (c, done (none, some e))

  -- ReadTag.
  unfoldable pub read_tag : Surroundings → Client → Client × Outcome Reading
  unfolding conclude
  read_tag env c =
      if c.connected
      then (let (c', end) = retry env (read_registers env t) c.max_retries 0 c in conclude c' end)
      else (c, done (none, some (domain connection_closed)))
