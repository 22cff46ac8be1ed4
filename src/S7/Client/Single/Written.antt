-- ===== src/S7/Client/Single/Written.antt =====
-- What WriteTag of internal/adapter/s7/client.go returns.
use protocol_gateway.Prelude.{◌⊎◌, inl, inr, Option, none, some, either_branch, Bool, List, ℕ}
use protocol_gateway.Domain.Errors.{Error, Result, ok, err, panic}
use protocol_gateway.Domain.Float.{Floats}
use protocol_gateway.Domain.Value.{Value, to_bool}
use protocol_gateway.Domain.Tag.{Tag}
use protocol_gateway.Modbus.Errors.{Outcome}
use protocol_gateway.Modbus.Range.{Reply, bytes_read, failed}
use protocol_gateway.S7.Address.{S7Location, parse_tag_address}
use protocol_gateway.S7.Convert.{value_to_bytes, reverse_scaling}
use protocol_gateway.S7.Convert.Total.{NoPanic, value_to_bytes-NoPanic}
use protocol_gateway.S7.Client.{Plc, write_request, read_request, is_tag_writable}
use protocol_gateway.S7.Client.Single.{
  Surroundings, State, LoopEnd, got, gave_up, context_ended, panicked, write_answer, send, modify,
  write_bool_with_rmw, write_bytes, write_data, retry, write_end, write_at, write_tag, is_bool,
}
use protocol_gateway.S7.Client.Single.Ends.{Tried, Ended, retry-Ended}

abbrev pub IsDone : Unit {0} → Type 0
IsDone u = Unit

module _ (plc : Plc) (fl : Floats) (env : Surroundings) where
  abbrev pub WriteTried : State plc fl env × Outcome (Unit {0}) → Type 0
  WriteTried r = Tried IsDone r.1

  write_answer-Tried : (l : S7Location) (r : Reply) → Tried IsDone (write_answer plc fl env l r)
  unfolding write_answer
  write_answer-Tried l (failed e) = tt
  write_answer-Tried l (bytes_read xs) = tt

  send-Tried :
      (l : S7Location) (bs : List ℕ) (s : State plc fl env) → WriteTried (send plc fl env l bs s)
  unfolding send
  send-Tried l bs (w, c) = write_answer-Tried l (plc.ask (write_request l bs) w).1

  modify-Tried :
      (l : S7Location) (b : Bool) (s : State plc fl env) (r : Reply)
      → WriteTried (modify plc fl env l b s r)
  unfolding modify
  modify-Tried l b s (failed e) = tt
  modify-Tried l b s (bytes_read xs) = send-Tried l _ s

  write_bool_with_rmw-Tried :
      (t : Tag) (l : S7Location) (o : Option Bool) (s : State plc fl env)
      → WriteTried (write_bool_with_rmw plc fl env t l o s)
  unfolding write_bool_with_rmw
  write_bool_with_rmw-Tried t l none s = tt
  write_bool_with_rmw-Tried t l (some b) (w, c) =
      modify-Tried l b _ (plc.ask (read_request l 1) w).1

  write_bytes-Tried :
      (t : Tag) (l : S7Location) (r : Result (List ℕ)) (s : State plc fl env)
      → NoPanic r
      → WriteTried (write_bytes plc fl env t l r s)
  unfolding write_bytes
  write_bytes-Tried t l (ok bs) s h = send-Tried l bs s
  write_bytes-Tried t l (err e) s h = tt
  write_bytes-Tried t l panic s h = h

  write_data-Tried :
      (t : Tag) (v : Value) (l : S7Location) (s : State plc fl env)
      → WriteTried (write_data plc fl env t v l s)
  unfolding write_data
  write_data-Tried t v l (w, c) =
      either_branch WriteTried c.has_client
        (λ _.
          either_branch WriteTried (is_bool t.data_type)
            (λ _. write_bool_with_rmw-Tried t l (to_bool (reverse_scaling fl v t)) (w, c))
            (λ _.
              write_bytes-Tried t l (value_to_bytes fl v t l.bit_offset) (w, c)
                (value_to_bytes-NoPanic fl v t l.bit_offset)))
        (λ _. tt)

  write_end-Tried :
      (t : Tag) (s : State plc fl env) (end : LoopEnd (Unit {0}))
      → Ended IsDone end
      → WriteTried (write_end plc fl env t s end)
  unfolding write_end
  write_end-Tried t (w, c) (got u) h = tt
  write_end-Tried t (w, c) (gave_up e) h = tt
  write_end-Tried t (w, c) (context_ended e) h = tt
  write_end-Tried t s panicked h = h

  write_at-Tried :
      (t : Tag) (v : Value) (a : Error ⊎ S7Location) (s : State plc fl env)
      → WriteTried (write_at plc fl env t v a s)
  unfolding write_at
  write_at-Tried t v (inl e) (w, c) = tt
  write_at-Tried t v (inr l) s =
      let attempt = write_data plc fl env t v l in
      let r = retry plc fl env attempt s.1.max_retries 0 s in
      write_end-Tried t r.0 r.1 (
        retry-Ended plc fl env IsDone attempt (λ s'. write_data-Tried t v l s') s.1.max_retries 0 s)

  -- WriteTag always returns.
  pub write_tag-Tried :
      (t : Tag) (v : Value) (s : State plc fl env) → WriteTried (write_tag plc fl env t v s)
  unfolding write_tag
  write_tag-Tried t v (w, c) =
      either_branch WriteTried c.connected
        (λ _.
          either_branch WriteTried (is_tag_writable t)
            (λ _. write_at-Tried t v (parse_tag_address t) (w, c)) (λ _. tt))
        (λ _. tt)
