-- ===== src/Modbus/Write.antt =====
-- Writing one tag with retries (internal/adapter/modbus/client.go, WriteTag, writeRegister,
-- writeSingleCoilLocked and writeHoldingRegisterLocked).
pub mod Counters
pub mod Direct
use protocol_gateway.Prelude.{
  ℕ, ◌+◌, ◌*◌, ◌/◌, ◌%◌, ◌^◌, Bool, true, false, Option, none, some, List, [], ◌∷◌, ◌++◌, length,
  ◌⊎◌, inl, inr, if◌then◌else◌,
}
use protocol_gateway.Prelude.Text.{bytes}
use protocol_gateway.Domain.Errors.{
  Error, Result, ok, err, panic, connection_closed, invalid_write_value, tag_not_writable,
  write_failed,
}
use protocol_gateway.Domain.Float.{Floats}
use protocol_gateway.Domain.Tag.{Tag, RegisterType, is_writable}
use protocol_gateway.Domain.Value.{Value, to_bool}
use protocol_gateway.Modbus.Convert.{value_to_bytes}
use protocol_gateway.Modbus.Errors.{
  IoError, io_text, ClientError, Outcome, done, fails, panics, domain, wrapped,
}
use protocol_gateway.Modbus.Client.{Client, count_failure, count_success}
use protocol_gateway.Modbus.Single.{Surroundings, LoopEnd, got, last_error, context_ended, retry}

-- The library's write functions, as one: the address, then what is written.
pub data WriteRequest : Type 0 where
  single_coil single_register : ℕ → ℕ → WriteRequest
  multiple_registers multiple_coils : ℕ → ℕ → List ℕ → WriteRequest

-- The answer of the library at each attempt: no error, or one.
abbrev pub WriteDevice : Type 0
WriteDevice = ℕ → WriteRequest → Option IoError

-- binary.BigEndian.Uint16 of two bytes is one register; more bytes are more registers.
register_request : ℕ → List ℕ → WriteRequest
register_request address (a ∷ b ∷ []) = single_register address (a * 2 ^ 8 + b)
register_request address bs = multiple_registers address (length bs / 2 % 65536) bs

coil_request : ℕ → Option Bool → Result WriteRequest
coil_request address (some b) = ok (single_coil address (if b then 0xFF00 else 0))
coil_request address none = err invalid_write_value

holding_request : ℕ → Result (List ℕ) → Result WriteRequest
unfolding register_request
holding_request address (ok bs) = ok (register_request address bs)
holding_request address (err e) = err e
holding_request address panic = panic

-- What a write returns: nothing, an error, or a panic.
abbrev pub Written : Type 0
Written = Outcome (Unit {0})

module _ (fl : Floats) (device : WriteDevice) (env : Surroundings) (t : Tag) (v : Value) where
  sent : Client → Option IoError → Client × (ClientError ⊎ Written)
  sent c none = (count_success c, inr (done tt))
  sent c (some e) =
      (count_failure c, inl (wrapped write_failed (bytes "write operation failed: " ++ io_text e)))

  -- What was to be written; a value that cannot be converted counts as a failure too.
  send : ℕ → Client → Result WriteRequest → Client × (ClientError ⊎ Written)
  unfolding sent
  send k c (ok r) = sent c (device k r)
  send k c (err e) = (count_failure c, inl (wrapped e (env.detail e t)))
  send k c panic = (c, inr panics)

  -- The switch of writeRegister on the register type.
  dispatch : ℕ → Client → RegisterType → Client × (ClientError ⊎ Written)
  unfolding send coil_request holding_request
  dispatch k c RegisterType.coil = send k c (coil_request t.address (to_bool v))
  dispatch k c RegisterType.holding_register =
      send k c (holding_request t.address (value_to_bytes fl v t))
  dispatch k c _ = (c, inl (wrapped tag_not_writable (env.detail tag_not_writable t)))

  -- writeRegister.
  unfoldable pub write_register : ℕ → Client → Client × (ClientError ⊎ Written)
  unfolding dispatch
  write_register k c =
      if c.has_client then dispatch k c t.register_type else (c, inl (domain connection_closed))

  -- What follows the loop: an error that the loop ends with is counted, an end of the context is not.
  close : Client → LoopEnd Written → Client × Written
  close c (got (done x)) = (record c { write_count = c.write_count + 1 }, done x)
  close c (got out) = (c, out)
  close c (last_error e) = (record c { error_count = c.error_count + 1 }, fails e)
  close c (context_ended e) = (c, fails e)

  -- WriteTag.
  unfoldable pub write_tag : Client → Client × Written
  unfolding close
  write_tag c =
      if c.connected
      then if is_writable t
        then (let (c', end) = retry env write_register c.max_retries 0 c in close c' end)
        else (c, fails (wrapped tag_not_writable (env.detail tag_not_writable t)))
      else (c, fails (domain connection_closed))
