-- ===== src/Modbus/Write/Counters.antt =====
-- The counters of a client over WriteTag.
use protocol_gateway.Prelude.{
  ℕ, ◌+◌, ◌≤◌, ◌≡◌, refl, Bool, true, false, Bool-cases, Option, none, some, inl, inr,
  if◌then◌else◌, arith,
}
use protocol_gateway.Domain.Errors.{Result, ok, err, panic}
use protocol_gateway.Domain.Float.{Floats}
use protocol_gateway.Domain.Tag.{Tag, RegisterType, is_writable}
use protocol_gateway.Domain.Value.{Value}
use protocol_gateway.Modbus.Errors.{IoError, done, fails, panics}
use protocol_gateway.Modbus.Client.{Client, count_failure, count_success}
use protocol_gateway.Modbus.Single.{Surroundings, LoopEnd, got, last_error, context_ended, retry}
use protocol_gateway.Modbus.Single.Retries.{Spends, Spends-refl, retry-Spends}
use protocol_gateway.Modbus.Write.{
  Written, WriteRequest, WriteDevice, sent, send, dispatch, write_register, close, write_tag,
}

pub succeeded : Written → Bool
succeeded (done x) = true
succeeded _ = false

module _ (fl : Floats) (device : WriteDevice) (env : Surroundings) (t : Tag) (v : Value) where
  sent-Spends : (c : Client) (e : Option IoError) → Spends 0 c (sent fl device env t v c e).0
  unfolding sent count_failure count_success
  sent-Spends c none = record { reads = refl; writes = refl; errors = refl; retries = omega arith }
  sent-Spends c (some e) = record {
    reads = refl;
    writes = refl;
    errors = refl;
    retries = omega arith;
  }

  send-Spends :
      (k : ℕ) (c : Client) (r : Result WriteRequest) → Spends 0 c (send fl device env t v k c r).0
  unfolding send count_failure
  send-Spends k c (ok r) = sent-Spends c (device k r)
  send-Spends k c (err e) = record {
    reads = refl;
    writes = refl;
    errors = refl;
    retries = omega arith;
  }
  send-Spends k c panic = Spends-refl c

  dispatch-Spends :
      (k : ℕ) (c : Client) (r : RegisterType) → Spends 0 c (dispatch fl device env t v k c r).0
  unfolding dispatch
  dispatch-Spends k c RegisterType.coil = send-Spends k c _
  dispatch-Spends k c RegisterType.holding_register = send-Spends k c _
  dispatch-Spends k c _ = Spends-refl c

  write_register-Spends : (k : ℕ) (c : Client) → Spends 0 c (write_register fl device env t v k c).0
  unfolding write_register
  write_register-Spends k c = elim (Bool-cases c.has_client) [
    | inl b ↦ simp b (dispatch-Spends k c t.register_type)
    | inr b ↦ simp b (Spends-refl c)
  ]

  -- One more write if it succeeded, at most one more error if not, at most `n` more retries.
  record Tally (n : ℕ) (c c' : Client) (out : Written) : Type 0 where
    writes : c'.write_count ≡ c.write_count + (if succeeded out then 1 else 0)
    errors : c'.error_count + (if succeeded out then 1 else 0) ≤ c.error_count + 1
    retries : c'.retry_count ≤ c.retry_count + n

  close-Tally :
      (n : ℕ) (c c' : Client) (end : LoopEnd Written)
      → Spends n c c'
      → Tally n c (close fl device env t v c' end).0 (close fl device env t v c' end).1
  unfolding close succeeded
  close-Tally n c c' (got (done x)) s = omega (arith, s.writes, s.errors, s.retries)
  close-Tally n c c' (got (fails e)) s = omega (arith, s.writes, s.errors, s.retries)
  close-Tally n c c' (got panics) s = omega (arith, s.writes, s.errors, s.retries)
  close-Tally n c c' (last_error e) s = omega (arith, s.writes, s.errors, s.retries)
  close-Tally n c c' (context_ended e) s = omega (arith, s.writes, s.errors, s.retries)

-- Writing a tag, whatever the device, the reconnects and the context do, counts one write exactly if it
-- succeeds, at most one error and that only if it does not succeed, and at most the configured
-- number of retries.
pub write_tag-counters :
    (fl : Floats) (device : WriteDevice) (env : Surroundings) (t : Tag) (v : Value) (c : Client)
    → let (c', out) = write_tag fl device env t v c in
      (c'.write_count ≡ c.write_count + (if succeeded out then 1 else 0))
      × (c'.error_count + (if succeeded out then 1 else 0) ≤ c.error_count + 1)
      × (c'.retry_count ≤ c.retry_count + c.max_retries)
unfolding write_tag succeeded
write_tag-counters fl device env t v c = elim (Bool-cases c.connected) [
  | inl b ↦ elim (Bool-cases (is_writable t)) [
    | inl w ↦
        let attempt = write_register fl device env t v in
        let s =
          retry-Spends env attempt (write_register-Spends fl device env t v) c.max_retries 0 c in
        let k =
          close-Tally fl device env t v c.max_retries c _ (retry env attempt c.max_retries 0 c).1
            s in
        simp (b, w) (k.writes, k.errors, k.retries)
    | inr w ↦ simp (b, w) (omega arith, omega arith, omega arith)
  ]
  | inr b ↦ simp b (omega arith, omega arith, omega arith)
]
