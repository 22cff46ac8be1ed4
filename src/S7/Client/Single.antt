-- ===== src/S7/Client/Single.antt =====
-- Reading and writing one tag (internal/adapter/s7/client.go, ReadTag, WriteTag, readData, writeData
-- and writeBoolWithRMW). The state is the world of the PLC and the client.
pub mod Memory
pub mod Ends
pub mod Written
use protocol_gateway.Prelude.{
  ◌⊎◌, inl, inr, ℕ, zero, suc, ◌+◌, ◌-◌, ◌^◌, Bool, true, false, List, [], ◌∷◌, ◌++◌, Option, none,
  some, ltb, get_or, if◌then◌else◌,
}
use protocol_gateway.Prelude.Text.{bytes}
use protocol_gateway.Domain.Errors.{
  Error, Result, ok, err, panic, connection_closed, invalid_write_value, tag_not_writable,
  s7_invalid_area, s7_read_failed, s7_write_failed,
}
use protocol_gateway.Domain.Float.{Floats}
use protocol_gateway.Domain.Value.{Value, to_bool}
use protocol_gateway.Domain.Tag.{Tag, DataType}
use protocol_gateway.Domain.DataPoint.{DataPoint, acquire_data_point, with_raw_value, good}
use protocol_gateway.Modbus.Errors.{
  ClientError, io_text, Outcome, done, fails, panics, domain, wrapped,
}
use protocol_gateway.Modbus.Range.{Reply, bytes_read, failed}
use protocol_gateway.Modbus.Convert.{test_bit}
use protocol_gateway.S7.Batch.{S7TagInRange}
use protocol_gateway.S7.Address.{S7Location, parse_tag_address}
use protocol_gateway.S7.Convert.{
  parse_value, apply_scaling, reverse_scaling, value_to_bytes, get_byte_count,
}
use protocol_gateway.S7.Client.{
  S7Client, Plc, read_request, write_request, has_area_code, is_retryable_error,
  is_connection_error, reconnect, record_tag_error, record_tag_success, create_error_data_point,
  is_tag_writable,
}

-- What an operation meets at its attempts: whether a reconnect succeeds, and the error of a context
-- that has ended; and the text that fmt makes of a location or a tag.
pub record Surroundings : Type 0 where
  pub dialed : ℕ → Bool
  pub ended : ℕ → Option ClientError
  pub place : S7Location → List ℕ
  pub detail : Error → Tag → List ℕ
  pub stopped : ℕ → Option ClientError  -- the error of the context before a chunk of ranges
  pub stopped_later : ℕ → Option ClientError  -- and before a chunk of tags
  pub excess : S7TagInRange → List ℕ → List ℕ  -- of a tag that its range does not hold
  pub missing : Tag → List ℕ

-- data[0] |= 1 << bit and data[0] &^= 1 << bit; from 8 on the bit is none of the byte.
unfoldable pub put_bit : Bool → ℕ → ℕ → ℕ
put_bit true bit x = if ltb bit 8 then if test_bit x bit then x else x + 2 ^ bit else x
put_bit false bit x = if ltb bit 8 then if test_bit x bit then x - 2 ^ bit else x else x

unfoldable pub is_bool : DataType → Bool
is_bool DataType.bool = true
is_bool _ = false

-- How the loop over the attempts ends.
pub data LoopEnd {ℓ} (A : Type ℓ) : Type ℓ where
  got : A → LoopEnd A
  gave_up context_ended : ClientError → LoopEnd A
  panicked : LoopEnd A

module _ (plc : Plc) (fl : Floats) (env : Surroundings) where
  abbrev pub State : Type 0
  State = plc.World × S7Client

  unfoldable pub data_point : S7Client → Tag → Value → DataPoint
  data_point c t v =
      with_raw_value (acquire_data_point c.device_id t.id "" (apply_scaling fl v t) t.unit good) v

  parsed : S7Client → Tag → Result Value → Outcome DataPoint
  unfolding data_point
  parsed c t (ok v) = done (data_point c t v)
  parsed c t (err e) = fails (domain e)
  parsed c t panic = panics

  read_answer : S7Client → Tag → S7Location → Reply → Outcome DataPoint
  unfolding parsed
  read_answer c t l (failed e) = fails (wrapped s7_read_failed (env.place l ++ io_text e))
  read_answer c t l (bytes_read xs) = parsed c t (parse_value xs t l.bit_offset)

  -- readData.
  unfoldable pub read_data : Tag → S7Location → State → State × Outcome DataPoint
  unfolding read_answer
  read_data t l (w, c) =
      if c.has_client
      then if has_area_code l.area
        then (let (w', r) = plc.ask (read_request l (get_byte_count t.data_type)) w in
            ((w', c), read_answer c t l r))
        else ((w, c), fails (wrapped s7_invalid_area (env.place l)))
      else ((w, c), fails (domain connection_closed))

  write_answer : S7Location → Reply → Outcome (Unit {0})
  write_answer l (failed e) = fails (wrapped s7_write_failed (env.place l ++ io_text e))
  write_answer l (bytes_read xs) = done tt

  send : S7Location → List ℕ → State → State × Outcome (Unit {0})
  unfolding write_answer
  send l bs (w, c) = let (w', r) = plc.ask (write_request l bs) w in ((w', c), write_answer l r)

  -- The byte was read; it is written back with the bit changed.
  modify : S7Location → Bool → State → Reply → State × Outcome (Unit {0})
  unfolding send
  modify l b s (failed e) =
      (s, fails (wrapped s7_read_failed (bytes "failed to read byte for RMW: " ++ io_text e)))
  modify l b s (bytes_read xs) = send l (put_bit b l.bit_offset (get_or xs 0 0) ∷ []) s

  -- writeBoolWithRMW.
  unfoldable pub write_bool_with_rmw :
      Tag → S7Location → Option Bool → State → State × Outcome (Unit {0})
  unfolding modify
  write_bool_with_rmw t l none s =
      (s, fails (wrapped invalid_write_value (env.detail invalid_write_value t)))
  write_bool_with_rmw t l (some b) (w, c) =
      let (w', r) = plc.ask (read_request l 1) w in modify l b (w', c) r

  write_bytes : Tag → S7Location → Result (List ℕ) → State → State × Outcome (Unit {0})
  unfolding send
  write_bytes t l (ok bs) s = send l bs s
  write_bytes t l (err e) s = (s, fails (wrapped e (env.detail e t)))
  write_bytes t l panic s = (s, panics)

  -- writeData.
  unfoldable pub write_data : Tag → Value → S7Location → State → State × Outcome (Unit {0})
  unfolding write_bool_with_rmw write_bytes is_bool
  write_data t v l (w, c) =
      if c.has_client
      then if is_bool t.data_type
        then write_bool_with_rmw t l (to_bool (reverse_scaling fl v t)) (w, c)
        else write_bytes t l (value_to_bytes fl v t l.bit_offset) (w, c)
      else ((w, c), fails (domain connection_closed))

  -- The retry loop around one attempt: `rest` retries are left after attempt `k`.
  module _ {A : Type 0} (attempt : State → State × Outcome A) where
    recover : ℕ → ClientError → State → State
    recover k e (w, c) = (w, if is_connection_error e then reconnect (env.dialed k) c else c)

    finish : ℕ → State → Outcome A → State × LoopEnd A
    unfolding recover
    finish k s (done a) = (s, got a)
    finish k s panics = (s, panicked)
    finish k s (fails e) = (if is_retryable_error e then recover k e s else s, gave_up e)

    count_retry : State → State
    count_retry (w, c) = (w, record c { retry_count = c.retry_count + 1 })

    proceed : (State → State × LoopEnd A) → ℕ → State → Outcome A → State × LoopEnd A
    unfolding recover count_retry
    proceed next k s (done a) = (s, got a)
    proceed next k s panics = (s, panicked)
    proceed next k s (fails e) = elim (is_retryable_error e) [
      | false ↦ (s, gave_up e)
      | true ↦
          let s' = count_retry (recover k e s) in
          elim (env.ended (k + 1)) [ some x ↦ (s', context_ended x) | none ↦ next s' ]
    ]

    unfoldable pub retry : ℕ → ℕ → State → State × LoopEnd A
    unfolding finish proceed
    retry zero k s = let (s', out) = attempt s in finish k s' out
    retry (suc rest) k s = let (s', out) = attempt s in proceed (retry rest (k + 1)) k s' out

  -- What every failure counts, and every success.
  count_failure : Tag → ClientError → S7Client → S7Client
  count_failure t e c = record_tag_error t.id e (record c {
    error_count = c.error_count + 1;
    consecutive_failures = c.consecutive_failures + 1;
  })

  count_success : Tag → S7Client → S7Client
  count_success t c = record_tag_success t.id (record c { consecutive_failures = 0 })

  -- A point or none, and an error or none.
  abbrev pub Reading : Type 0
  Reading = Option DataPoint × Option ClientError

  read_failed_at : Tag → ClientError → State → State × Outcome Reading
  unfolding count_failure
  read_failed_at t e (w, c) =
      let c' = count_failure t e c in
      ((w, c'), done (some (create_error_data_point c' t e), some e))

  read_end : Tag → State → LoopEnd DataPoint → State × Outcome Reading
  unfolding read_failed_at count_success
  read_end t (w, c) (got p) =
      let c' = count_success t c in
      ((w, record c' { read_count = c'.read_count + 1 }), done (some p, none))
  read_end t s (gave_up e) = read_failed_at t e s
  read_end t (w, c) (context_ended e) = ((w, record_tag_error t.id e c), done (none, some e))
  read_end t s panicked = (s, panics)

  read_at : Tag → Error ⊎ S7Location → State → State × Outcome Reading
  unfolding read_end
  read_at t (inr l) s =
      let (s', end) = retry (read_data t l) s.1.max_retries 0 s in read_end t s' end
  read_at t (inl e) s = read_failed_at t (domain e) s

  -- ReadTag.
  unfoldable pub read_tag : Tag → State → State × Outcome Reading
  unfolding read_at
  read_tag t (w, c) = if c.connected then read_at t (parse_tag_address t) (w, c) else (
    (w, record_tag_error t.id (domain connection_closed) c),
    done (none, some (domain connection_closed)),
  )

  write_end : Tag → State → LoopEnd (Unit {0}) → State × Outcome (Unit {0})
  unfolding count_failure count_success
  write_end t (w, c) (got u) =
      let c' = count_success t c in ((w, record c' { write_count = c'.write_count + 1 }), done tt)
  write_end t (w, c) (gave_up e) = ((w, count_failure t e c), fails e)
  write_end t (w, c) (context_ended e) = ((w, record_tag_error t.id e c), fails e)
  write_end t s panicked = (s, panics)

  write_at : Tag → Value → Error ⊎ S7Location → State → State × Outcome (Unit {0})
  unfolding write_end
  write_at t v (inr l) s =
      let (s', end) = retry (write_data t v l) s.1.max_retries 0 s in write_end t s' end
  write_at t v (inl e) (w, c) = ((w, count_failure t (domain e) c), fails (domain e))

  -- WriteTag.
  unfoldable pub write_tag : Tag → Value → State → State × Outcome (Unit {0})
  unfolding write_at
  write_tag t v (w, c) =
      if c.connected
      then if is_tag_writable t
        then write_at t v (parse_tag_address t) (w, c)
        else (let e = wrapped tag_not_writable (env.detail tag_not_writable t) in
            ((w, record_tag_error t.id e c), fails e))
      else (
        (w, record_tag_error t.id (domain connection_closed) c),
        fails (domain connection_closed),
      )
