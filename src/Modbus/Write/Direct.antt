-- ===== src/Modbus/Write/Direct.antt =====
-- The writes at an address (internal/adapter/modbus/client.go, from WriteSingleCoil to
-- WriteMultipleCoils): one attempt, with no tag and no retries.
use protocol_gateway.Prelude.{
  ◌++◌, ℕ, zero, suc, ◌+◌, ◌/◌, ◌%◌, ◌^◌, Bool, Option, none, some, List, [], ◌∷◌, length,
  if◌then◌else◌,
}
use protocol_gateway.Prelude.Text.{bytes}
use protocol_gateway.Domain.Errors.{connection_closed, write_failed}
use protocol_gateway.Modbus.Errors.{IoError, io_text, domain, wrapped, done, fails}
use protocol_gateway.Modbus.Client.{Client}
use protocol_gateway.Modbus.Write.{
  WriteRequest, single_coil, single_register, multiple_registers, multiple_coils, Written,
}

-- The answer of the library: no error, or one.
answered : Client → Option IoError → Client × Written
answered c none = (record c { write_count = c.write_count + 1; consecutive_failures = 0 }, done tt)
answered c (some e) = (
  record c { error_count = c.error_count + 1; consecutive_failures = c.consecutive_failures + 1 },
  fails (wrapped write_failed (bytes "write operation failed: " ++ io_text e)),
)

-- What the four writes share.
unfoldable pub write_directly :
    (WriteRequest → Option IoError) → WriteRequest → Client → Client × Written
unfolding answered
write_directly device r c =
    if c.connected
    then if c.has_client then answered c (device r) else (c, fails (domain connection_closed))
    else (c, fails (domain connection_closed))

-- PutUint16 for each value.
register_bytes : List ℕ → List ℕ
register_bytes [] = []
register_bytes (v ∷ vs) = v / 2 ^ 8 % 2 ^ 8 ∷ v % 2 ^ 8 ∷ register_bytes vs

-- make([]byte, n)
zeros : ℕ → List ℕ
zeros zero = []
zeros (suc n) = 0 ∷ zeros n

-- bytes[i] |= bit, where the bit is still clear.
set_bit : ℕ → ℕ → List ℕ → List ℕ
set_bit i bit [] = []
set_bit zero bit (b ∷ bs) = (b + bit) ∷ bs
set_bit (suc i) bit (b ∷ bs) = b ∷ set_bit i bit bs

-- The loop over the values, from the index i.
pack_from : ℕ → List Bool → List ℕ → List ℕ
unfolding set_bit
pack_from i [] bytes = bytes
pack_from i (v ∷ vs) bytes =
    pack_from (i + 1) vs (if v then set_bit (i / 8) (2 ^ (i % 8)) bytes else bytes)

unfoldable pub coil_bytes : List Bool → List ℕ
unfolding pack_from zeros
coil_bytes vs = pack_from 0 vs (zeros ((length vs + 7) / 8))

module _ (device : WriteRequest → Option IoError) (address : ℕ) where
  unfoldable pub write_single_coil : Bool → Client → Client × Written
  unfolding write_directly
  write_single_coil v = write_directly device (single_coil address (if v then 0xFF00 else 0))

  unfoldable pub write_single_register : ℕ → Client → Client × Written
  unfolding write_directly
  write_single_register v = write_directly device (single_register address v)

  unfoldable pub write_multiple_registers : List ℕ → Client → Client × Written
  unfolding write_directly register_bytes
  write_multiple_registers vs =
      write_directly device (multiple_registers address (length vs % 65536) (register_bytes vs))

  unfoldable pub write_multiple_coils : List Bool → Client → Client × Written
  unfolding write_directly coil_bytes
  write_multiple_coils vs =
      write_directly device (multiple_coils address (length vs % 65536) (coil_bytes vs))
