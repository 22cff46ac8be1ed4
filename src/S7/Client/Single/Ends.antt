-- ===== src/S7/Client/Single/Ends.antt =====
-- What ReadTag of internal/adapter/s7/client.go returns.
use protocol_gateway.Prelude.{
  ℕ, zero, suc, ◌≡◌, refl, Option, none, some, ◌⊎◌, inl, inr, either_branch, Bool-cases,
  Option-cases, ◌+◌,
}
use protocol_gateway.Domain.Errors.{Error, Result, ok, err, panic}
use protocol_gateway.Domain.Float.{Floats}
use protocol_gateway.Domain.Value.{Value}
use protocol_gateway.Domain.Tag.{Tag}
use protocol_gateway.Domain.DataPoint.{DataPoint, acquire_data_point, with_raw_value}
use protocol_gateway.Modbus.Errors.{ClientError, Outcome, done, fails, panics}
use protocol_gateway.Modbus.Range.{Reply, bytes_read, failed}
use protocol_gateway.S7.Address.{S7Location, parse_tag_address}
use protocol_gateway.S7.Convert.{parse_value, get_byte_count}
use protocol_gateway.S7.Convert.Total.{NoPanic, parse_value-NoPanic}
use protocol_gateway.S7.Client.{
  S7Client, Plc, read_request, has_area_code, is_retryable_error, create_error_data_point,
}
use protocol_gateway.S7.Client.Single.{
  Surroundings, State, Reading, LoopEnd, got, gave_up, context_ended, panicked, data_point, parsed,
  read_answer, read_data, retry, finish, proceed, read_failed_at, read_end, read_at, read_tag,
}

-- A result with a property, an error, and never a panic: of an attempt, and of the loop.
abbrev pub Tried : {A : Type 0} → (A → Type 0) → Outcome A → Type 0
Tried P (done a) = P a
Tried P (fails e) = Unit
Tried P panics = ⊥

abbrev pub Ended : {A : Type 0} → (A → Type 0) → LoopEnd A → Type 0
Ended P (got a) = P a
Ended P (gave_up e) = Unit
Ended P (context_ended e) = Unit
Ended P panicked = ⊥

abbrev IsOf : Tag → DataPoint → Type 0
IsOf t p = p.tag_id ≡ t.id

abbrev pub OfTag : Tag → Option DataPoint → Type 0
OfTag t none = Unit
OfTag t (some p) = p.tag_id ≡ t.id

module _ (plc : Plc) (fl : Floats) (env : Surroundings) where
  abbrev pub Returned : Tag → Outcome (Reading plc fl env) → Type 0
  Returned t (done r) = OfTag t r.0
  Returned t (fails e) = ⊥
  Returned t panics = ⊥

  abbrev pub TriedAfter : {A : Type 0} → (A → Type 0) → State plc fl env × Outcome A → Type 0
  TriedAfter P r = Tried P r.1

  abbrev pub EndedAfter : {A : Type 0} → (A → Type 0) → State plc fl env × LoopEnd A → Type 0
  EndedAfter P r = Ended P r.1

  abbrev ReturnedAfter : Tag → State plc fl env × Outcome (Reading plc fl env) → Type 0
  ReturnedAfter t r = Returned t r.1

  pub data_point-tag :
      (c : S7Client) (t : Tag) (v : Value) → (data_point plc fl env c t v).tag_id ≡ t.id
  unfolding data_point acquire_data_point with_raw_value
  data_point-tag c t v = refl

  parsed-Tried :
      (c : S7Client) (t : Tag) (r : Result Value)
      → NoPanic r
      → Tried (IsOf t) (parsed plc fl env c t r)
  unfolding parsed
  parsed-Tried c t (ok v) h = data_point-tag c t v
  parsed-Tried c t (err e) h = tt
  parsed-Tried c t panic h = h

  read_answer-Tried :
      (c : S7Client) (t : Tag) (l : S7Location) (r : Reply)
      → Tried (IsOf t) (read_answer plc fl env c t l r)
  unfolding read_answer
  read_answer-Tried c t l (failed e) = tt
  read_answer-Tried c t l (bytes_read xs) =
      parsed-Tried c t (parse_value xs t l.bit_offset) (parse_value-NoPanic xs t l.bit_offset)

  read_data-Tried :
      (t : Tag) (l : S7Location) (s : State plc fl env)
      → TriedAfter (IsOf t) (read_data plc fl env t l s)
  unfolding read_data
  read_data-Tried t l (w, c) =
      either_branch (TriedAfter (IsOf t)) c.has_client
        (λ _.
          either_branch (TriedAfter (IsOf t)) (has_area_code l.area)
            (λ _.
              read_answer-Tried c t l (plc.ask (read_request l (get_byte_count t.data_type)) w).1)
            (λ _. tt))
        (λ _. tt)

  module _ {A : Type 0} (P : A → Type 0) (attempt : State plc fl env → State plc fl env × Outcome A)
      (tried : (s : State plc fl env) → TriedAfter P (attempt s)) where
    finish-Ended :
        (k : ℕ) (s : State plc fl env) (o : Outcome A)
        → Tried P o
        → EndedAfter P (finish plc fl env attempt k s o)
    unfolding finish
    finish-Ended k s (done p) h = h
    finish-Ended k s (fails e) h = tt
    finish-Ended k s panics h = h

    proceed-Ended :
        (next : State plc fl env → State plc fl env × LoopEnd A) (k : ℕ) (s : State plc fl env)
        (o : Outcome A)
        → ((s : State plc fl env) → EndedAfter P (next s))
        → Tried P o
        → EndedAfter P (proceed plc fl env attempt next k s o)
    unfolding proceed
    proceed-Ended next k s (done p) n h = h
    proceed-Ended next k s panics n h = h
    proceed-Ended next k s (fails e) n h = elim (Bool-cases (is_retryable_error e)) [
      | inr final ↦ rw (proceed, final) tt
      | inl again ↦ elim (Option-cases (env.ended (k + 1))) [
        | inl alive ↦ rw (proceed, again, alive) (n _)
        | inr (x, gone) ↦ rw (proceed, again, gone) tt
      ]
    ]

    pub retry-Ended :
        (rest k : ℕ) (s : State plc fl env) → EndedAfter P (retry plc fl env attempt rest k s)
    unfolding retry
    retry-Ended zero k s = finish-Ended k (attempt s).0 (attempt s).1 (tried s)
    retry-Ended (suc rest) k s =
        proceed-Ended (retry plc fl env attempt rest (k + 1)) k (attempt s).0 (attempt s).1
          (λ s'. retry-Ended rest (k + 1) s') (tried s)

  read_failed_at-Returned :
      (t : Tag) (e : ClientError) (s : State plc fl env)
      → ReturnedAfter t (read_failed_at plc fl env t e s)
  unfolding read_failed_at create_error_data_point acquire_data_point
  read_failed_at-Returned t e (w, c) = refl

  read_end-Returned :
      (t : Tag) (s : State plc fl env) (end : LoopEnd DataPoint)
      → Ended (IsOf t) end
      → ReturnedAfter t (read_end plc fl env t s end)
  unfolding read_end
  read_end-Returned t (w, c) (got p) h = h
  read_end-Returned t s (gave_up e) h = read_failed_at-Returned t e s
  read_end-Returned t (w, c) (context_ended e) h = tt
  read_end-Returned t s panicked h = h

  read_at-Returned :
      (t : Tag) (a : Error ⊎ S7Location) (s : State plc fl env)
      → ReturnedAfter t (read_at plc fl env t a s)
  unfolding read_at
  read_at-Returned t (inl e) s = read_failed_at-Returned t _ s
  read_at-Returned t (inr l) s =
      let attempt = read_data plc fl env t l in
      let r = retry plc fl env attempt s.1.max_retries 0 s in
      read_end-Returned t r.0 r.1
        (retry-Ended (IsOf t) attempt (λ s'. read_data-Tried t l s') s.1.max_retries 0 s)

  -- ReadTag always returns; a point that it returns is of the tag.
  pub read_tag-Returned :
      (t : Tag) (s : State plc fl env) → ReturnedAfter t (read_tag plc fl env t s)
  unfolding read_tag
  read_tag-Returned t (w, c) =
      either_branch (ReturnedAfter t) c.connected
        (λ _. read_at-Returned t (parse_tag_address t) (w, c)) (λ _. tt)
