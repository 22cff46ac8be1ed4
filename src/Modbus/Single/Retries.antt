-- ===== src/Modbus/Single/Retries.antt =====
-- The counters of a client over the retry loop of ReadTag.
use protocol_gateway.Prelude.{
  ℕ, zero, suc, ◌+◌, ◌≤◌, ◌≡◌, refl, ◌∙◌, Bool, true, false, Bool-cases, Option-cases, List, ◌⊎◌,
  inl, inr, arith,
}
use protocol_gateway.Domain.Errors.{ok, err, panic, Result}
use protocol_gateway.Domain.Float.{Floats}
use protocol_gateway.Domain.Tag.{Tag}
use protocol_gateway.Domain.Value.{Value}
use protocol_gateway.Modbus.Convert.{parse_value}
use protocol_gateway.Modbus.Errors.{ClientError, is_retryable_error, is_connection_error}
use protocol_gateway.Modbus.Client.{
  Client, connect, disconnect, reconnect, count_failure, count_success, record_tag_success,
  record_tag_error,
}
use protocol_gateway.Modbus.Range.{Reply, bytes_read, failed}
use protocol_gateway.Modbus.Single.{
  count_retry, Surroundings, validate_protocol_limits, is_readable_type, on_answer, read_registers,
  LoopEnd, got, last_error, context_ended, recover, finish, proceed, retry, conclude, parsed,
  count_error, count_read, read_tag,
}

-- The counters of reads, writes and errors are as they were, and at most `n` retries were counted.
pub record Spends (n : ℕ) (c c' : Client) : Type 0 where
  pub reads : c'.read_count ≡ c.read_count
  pub writes : c'.write_count ≡ c.write_count
  pub errors : c'.error_count ≡ c.error_count
  pub retries : c'.retry_count ≤ c.retry_count + n

-- The connection is there.
Up : Client → Type 0
Up c = (c.connected ≡ true) × (c.has_client ≡ true)

pub Spends-refl : (c : Client) → Spends 0 c c
Spends-refl c = record { reads = refl; writes = refl; errors = refl; retries = omega arith }

pub Spends-trans :
    {m n : ℕ} (l : ℕ) (c d : Client) {e : Client}
    → m + n ≤ l
    → Spends m c d
    → Spends n d e
    → Spends l c e
Spends-trans l c d h p q = record {
  reads = q.reads ∙ p.reads;
  writes = q.writes ∙ p.writes;
  errors = q.errors ∙ p.errors;
  retries = (let a = p.retries in let b = q.retries in omega arith);
}

disconnect-Spends : (c : Client) → Spends 0 c (disconnect c)
unfolding disconnect
disconnect-Spends c = elim (Bool-cases c.connected) [
  | inl b ↦ simp b (record { reads = refl; writes = refl; errors = refl; retries = omega arith })
  | inr b ↦ simp b (Spends-refl c)
]

connect-Spends : (dialed : Bool) (c : Client) → Spends 0 c (connect dialed c).0
unfolding connect
connect-Spends true c = elim (Bool-cases c.connected) [
  | inl b ↦ simp b (Spends-refl c)
  | inr b ↦ simp b (record { reads = refl; writes = refl; errors = refl; retries = omega arith })
]
connect-Spends false c = elim (Bool-cases c.connected) [
  | inl b ↦ simp b (Spends-refl c)
  | inr b ↦ simp b (Spends-refl c)
]

recover-Spends : (dialed : Bool) (e : ClientError) (c : Client) → Spends 0 c (recover dialed e c)
unfolding recover reconnect
recover-Spends dialed e c = elim (Bool-cases (is_connection_error e)) [
  | inl b ↦ simp b (
      Spends-trans 0 c (disconnect c) (omega arith) (disconnect-Spends c)
        (connect-Spends dialed (disconnect c)))
  | inr b ↦ simp b (Spends-refl c)
]

on_answer-Spends : (c : Client) (r : Reply) → Spends 0 c (on_answer c r).0
unfolding on_answer count_failure count_success
on_answer-Spends c (failed e) = record {
  reads = refl;
  writes = refl;
  errors = refl;
  retries = omega arith;
}
on_answer-Spends c (bytes_read raw) = record {
  reads = refl;
  writes = refl;
  errors = refl;
  retries = omega arith;
}

read_registers-Spends :
    (env : Surroundings) (t : Tag) (k : ℕ) (c : Client) → Spends 0 c (read_registers env t k c).0
unfolding read_registers
read_registers-Spends env t k c = elim (Bool-cases c.has_client) [
  | inl b ↦ elim (Option-cases (validate_protocol_limits t)) [
    | inl v ↦ elim (Bool-cases (is_readable_type t.register_type)) [
      | inl r ↦
          simp (b, v, r)
            (on_answer-Spends c (env.device k t.register_type t.address t.register_count))
      | inr r ↦ simp (b, v, r) (Spends-refl c)
    ]
    | inr (e, v) ↦ simp (b, v) (Spends-refl c)
  ]
  | inr b ↦ simp b (Spends-refl c)
]

module _ {ℓ} {A : Type ℓ} (env : Surroundings)
    (attempt : ℕ → Client → Client × (ClientError ⊎ A)) where
  finish-Spends :
      (k : ℕ) (c : Client) (out : ClientError ⊎ A) → Spends 0 c (finish env attempt k c out).0
  unfolding finish
  finish-Spends k c (inr a) = Spends-refl c
  finish-Spends k c (inl e) = elim (Bool-cases (is_retryable_error e)) [
    | inl b ↦ simp b (recover-Spends (env.dialed k) e c)
    | inr b ↦ simp b (Spends-refl c)
  ]

  proceed-Spends :
      (next : Client → Client × LoopEnd A) (rest : ℕ)
      → ((d : Client) → Spends rest d (next d).0)
      → (k : ℕ) (c : Client) (out : ClientError ⊎ A)
      → Spends (1 + rest) c (proceed env attempt next k c out).0
  unfolding proceed
  proceed-Spends next rest h k c (inr a) = record {
    reads = refl;
    writes = refl;
    errors = refl;
    retries = omega arith;
  }
  proceed-Spends next rest h k c (inl e) =
      let d = recover (env.dialed k) e c in
      let r = recover-Spends (env.dialed k) e c in
      let counted : Spends 1 c (count_retry d) = record {
        reads = r.reads;
        writes = r.writes;
        errors = r.errors;
        retries = (let a = r.retries in omega arith);
      } in
      elim (Bool-cases (is_retryable_error e)) [
        | inl b ↦ elim (Option-cases (env.ended (k + 1))) [
          | inl v ↦
              rw (proceed, b, v)
                (Spends-trans (1 + rest) c (count_retry d) (omega arith) counted
                  (h (count_retry d)))
          | inr (x, v) ↦
              rw (proceed, b, v)
                (Spends-trans (1 + rest) c (count_retry d) (omega arith) counted
                  (Spends-refl (count_retry d)))
        ]
        | inr b ↦
            rw (proceed, b)
              (record { reads = refl; writes = refl; errors = refl; retries = omega arith })
      ]

  pub retry-Spends :
      ((k : ℕ) (c : Client) → Spends 0 c (attempt k c).0)
      → (rest k : ℕ) (c : Client) → Spends rest c (retry env attempt rest k c).0
  unfolding retry
  retry-Spends h zero k c =
      Spends-trans 0 c (attempt k c).0 (omega arith) (h k c)
        (finish-Spends k (attempt k c).0 (attempt k c).1)
  retry-Spends h (suc rest) k c = Spends-trans (suc rest) c (attempt k c).0 (omega arith) (h k c) (
      proceed-Spends (retry env attempt rest (k + 1)) rest (retry-Spends h rest (k + 1)) k
        (attempt k c).0 (attempt k c).1)

parsed-client : (fl : Floats) (t : Tag) (c : Client) (r : Result Value) → (parsed fl t c r).0 ≡ c
unfolding parsed
parsed-client fl t c (ok v) = refl
parsed-client fl t c (err e) = refl
parsed-client fl t c panic = refl

-- The sum of reads and errors grows by one, or not at all.
record Counts (n : ℕ) (c c' : Client) : Type 0 where
  outcomes : c'.read_count + c'.error_count ≤ c.read_count + c.error_count + 1
  attempts : c'.retry_count ≤ c.retry_count + n

conclude-Counts :
    (fl : Floats) (t : Tag) (n : ℕ) (c c' : Client) (end : LoopEnd (List ℕ))
    → Spends n c c'
    → Counts n c (conclude fl t c' end).0
unfolding conclude count_read count_error record_tag_success record_tag_error
conclude-Counts fl t n c c' (got raw) s =
    rw (parsed-client fl t (count_read fl t c') (parse_value raw t).0)
      (omega (arith, s.reads, s.errors, s.retries))
conclude-Counts fl t n c c' (last_error e) s = omega (arith, s.reads, s.errors, s.retries)
conclude-Counts fl t n c c' (context_ended e) s = omega (arith, s.reads, s.errors, s.retries)

-- Reading a tag, whatever the device, the reconnects and the context do, counts at most one outcome, a
-- read or an error, and at most the configured number of retries.
pub read_tag-counters :
    (fl : Floats) (t : Tag) (env : Surroundings) (c : Client)
    → let c' = (read_tag fl t env c).0 in
      (c'.read_count + c'.error_count ≤ c.read_count + c.error_count + 1)
      × (c'.retry_count ≤ c.retry_count + c.max_retries)
unfolding read_tag
read_tag-counters fl t env c = elim (Bool-cases c.connected) [
  | inl b ↦
      let s =
        retry-Spends env (read_registers env t) (read_registers-Spends env t) c.max_retries 0 c in
      let k =
        conclude-Counts fl t c.max_retries c _
          (retry env (read_registers env t) c.max_retries 0 c).1 s in
      simp b (k.outcomes, k.attempts)
  | inr b ↦ simp b (omega arith, omega arith)
]
