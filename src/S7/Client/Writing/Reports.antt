-- ===== src/S7/Client/Writing/Reports.antt =====
-- The course of WriteTags of internal/adapter/s7/client.go, from the separation of the writes to
-- the reports.
use protocol_gateway.Prelude.{
  ℕ, zero, suc, ◌+◌, ◌≡◌, refl, true, false, ◌⊎◌, inl, inr, List, [], ◌∷◌, ◌++◌, Option, none, some,
  get_elem?, arith, ap, ◌∙◌, either_branch, All, All-append_inv, subst, Bool-cases, sym,
}
use protocol_gateway.Prelude.Flat.{flat}
use protocol_gateway.Domain.Errors.{Error, Result, ok, err, panic}
use protocol_gateway.Domain.Float.{Floats}
use protocol_gateway.Domain.Tag.{Tag}
use protocol_gateway.Modbus.Errors.{ClientError, Outcome, done, fails, panics}
use protocol_gateway.S7.Address.{S7Location, parse_tag_address}
use protocol_gateway.S7.Convert.{value_to_bytes}
use protocol_gateway.S7.Convert.Total.{NoPanic, value_to_bytes-NoPanic}
use protocol_gateway.S7.Client.{S7Client, Plc, PlcItem, is_tag_writable, has_area_code}
use protocol_gateway.S7.Client.Single.{Surroundings, State, is_bool}
use protocol_gateway.S7.Client.Single.Ends.{Tried}
use protocol_gateway.S7.Client.Single.Written.{IsDone, write_tag-Tried}
use protocol_gateway.S7.Client.Reading.{chunks}
use protocol_gateway.S7.Client.Reading.Optimized.{flat-chunks}
use protocol_gateway.S7.Client.Writing.{
  max_multi_write_items, TagWrite, IndexedWrite, Errors, Separated, put_prepared, on_context,
  separate_one, separate, write_item, prepare, prepare_all, write_tag_batch, after_write,
  write_bools, after_chunk, write_chunks, write_tags,
}
use protocol_gateway.S7.Client.Writing.Refused.{
  refusal, Reported, IsPlaced, set-Reported, copy_errors-Reported, stop_all-Reported,
  stop_unset-Reported,
}

on_context-lem :
    {A : Type 0} (P : A → Type 0) (o : Option ClientError) (stop : ClientError → A) (go : A)
    → ((e : ClientError) → P (stop e))
    → P go
    → P (on_context o stop go)
unfolding on_context
on_context-lem P (some e) stop go s g = s e
on_context-lem P none stop go s g = g

cons-Reported :
    (env : Surroundings) (x : TagWrite) (us : List TagWrite) (o : Option ClientError)
    (errs : Errors)
    → (is_tag_writable x.tag ≡ false → o ≡ refusal env x)
    → Reported env us errs
    → Reported env (x ∷ us) (o ∷ errs)
cons-Reported env x us o errs h k = record { same_length = ap suc k.same_length; refused = at }
  where
    at :
        (i : ℕ) (y : TagWrite)
        → get_elem? (x ∷ us) i ≡ some y
        → is_tag_writable y.tag ≡ false
        → get_elem? (o ∷ errs) i ≡ some (refusal env y)
    at zero y here off =
        let e : x ≡ y = cc here in
        subst (λ (z : TagWrite). some o ≡ some (refusal env z)) e
          (ap some (h (ap (λ (z : TagWrite). is_tag_writable z.tag) e ∙ off)))
    at (suc i) y here off = k.refused i y here off

-- What is made of the writes `us`, which are among `ws`.
abbrev Splits : Surroundings → List TagWrite → List TagWrite → Separated → Type 0
Splits env ws us s =
    Reported env us s.errs × All (IsPlaced ws) s.batchable × All (IsPlaced ws) s.bool_writes

abbrev IsTail : List TagWrite → ℕ → List TagWrite → Type 0
IsTail ws i us =
    (n j : ℕ) (x : TagWrite) → n ≡ i + j → get_elem? us j ≡ some x → get_elem? ws n ≡ some x

abbrev IsPrepared : {A : Type 0} → Outcome A → Type 0
IsPrepared (done ps) = Unit
IsPrepared (fails e) = ⊥
IsPrepared panics = ⊥

put_prepared-IsPrepared :
    (i : Result PlcItem) (r : Outcome (List (Error ⊎ PlcItem)))
    → NoPanic i
    → IsPrepared r
    → IsPrepared (put_prepared i r)
unfolding put_prepared
put_prepared-IsPrepared panic r n h = n
put_prepared-IsPrepared (ok i) (done ps) n h = tt
put_prepared-IsPrepared (ok i) (fails e) n h = h
put_prepared-IsPrepared (ok i) panics n h = h
put_prepared-IsPrepared (err e) (done ps) n h = tt
put_prepared-IsPrepared (err e) (fails e') n h = h
put_prepared-IsPrepared (err e) panics n h = h

module _ (plc : Plc) (fl : Floats) (env : Surroundings) where
  write_item-NoPanic :
      (t : Tag) (l : S7Location) (r : Result (List ℕ))
      → NoPanic r
      → NoPanic (write_item plc fl env t l r)
  unfolding write_item
  write_item-NoPanic t l (ok bs) h = tt
  write_item-NoPanic t l (err e) h = tt
  write_item-NoPanic t l panic h = h

  prepare-NoPanic : (x : TagWrite) (a : Error ⊎ S7Location) → NoPanic (prepare plc fl env x a)
  unfolding prepare
  prepare-NoPanic x (inl e) = tt
  prepare-NoPanic x (inr l) =
      either_branch NoPanic (has_area_code l.area)
        (λ _.
          write_item-NoPanic x.tag l (value_to_bytes fl x.value x.tag l.bit_offset)
            (value_to_bytes-NoPanic fl x.value x.tag l.bit_offset))
        (λ _. tt)

  prepare_all-IsPrepared : (xs : List IndexedWrite) → IsPrepared (prepare_all plc fl env xs)
  unfolding prepare_all
  prepare_all-IsPrepared [] = tt
  prepare_all-IsPrepared (x ∷ xs) =
      put_prepared-IsPrepared _ _ (prepare-NoPanic x.write (parse_tag_address x.write.tag))
        (prepare_all-IsPrepared xs)

  write_tag_batch-IsPrepared :
      (xs : List IndexedWrite) (r : Outcome (List (Error ⊎ PlcItem))) (s : State plc fl env)
      → IsPrepared r
      → IsPrepared (write_tag_batch plc fl env xs r s).1
  unfolding write_tag_batch
  write_tag_batch-IsPrepared xs (done ps) s h = tt
  write_tag_batch-IsPrepared xs (fails e) s h = h
  write_tag_batch-IsPrepared xs panics s h = h

  module _ (ws : List TagWrite) where
    separate_one-Splits :
        (i : ℕ) (x : TagWrite) (us : List TagWrite) (s : Separated)
        → get_elem? ws i ≡ some x
        → Splits env ws us s
        → Splits env ws (x ∷ us) (separate_one plc fl env i x s)
    unfolding separate_one
    separate_one-Splits i x us s at (k, b, c) = elim (Bool-cases (is_tag_writable x.tag)) [
      | inr off ↦ rw off (cons-Reported env x us _ s.errs (λ _. refl) k, b, c)
      | inl on ↦ elim (Bool-cases (is_bool x.tag.data_type)) [
        | inl bit ↦
            rw (on, bit)
              (
                cons-Reported env x us none s.errs (λ off. absurd (cc (on, off))) k,
                b,
                ((at, on), c),
              )
        | inr plain ↦
            rw (on, plain)
              (
                cons-Reported env x us none s.errs (λ off. absurd (cc (on, off))) k,
                ((at, on), b),
                c,
              )
      ]
    ]

    separate-Splits :
        (i : ℕ) (us : List TagWrite) → IsTail ws i us → Splits env ws us (separate plc fl env i us)
    unfolding separate
    separate-Splits i [] h =
        (record { same_length = refl; refused = λ j x here off. absurd (cc here) }, tt, tt)
    separate-Splits i (x ∷ us) h =
        separate_one-Splits i x us _ (h i 0 x (omega arith) refl)
          (separate-Splits (i + 1) us (λ n j y e at. h n (suc j) y (omega (arith, e)) at))

    abbrev pub Reports : Outcome Errors → Type 0
    Reports (done errs) = Reported env ws errs
    Reports (fails e) = ⊥
    Reports panics = ⊥

    abbrev ReportsAfter : State plc fl env × Outcome Errors → Type 0
    ReportsAfter r = Reports r.1

    -- What comes next makes a report of a report.
    abbrev Goes : (State plc fl env → Errors → State plc fl env × Outcome Errors) → Type 0
    Goes next =
        (s : State plc fl env) (errs : Errors) → Reported env ws errs → ReportsAfter (next s errs)

    after_write-Reports :
        (x : IndexedWrite) (errs : Errors)
        (next : State plc fl env → Errors → State plc fl env × Outcome Errors)
        (r : State plc fl env × Outcome (Unit {0}))
        → IsPlaced ws x
        → Goes next
        → Tried IsDone r.1
        → Reported env ws errs
        → ReportsAfter (after_write plc fl env x errs next r)
    unfolding after_write
    after_write-Reports x errs next (s, done u) p n h k =
        n s _ (set-Reported env ws x none errs p k)
    after_write-Reports x errs next (s, fails e) p n h k =
        n s _ (set-Reported env ws x (some e) errs p k)
    after_write-Reports x errs next (s, panics) p n h k = h

    write_bools-Reports :
        (j : ℕ) (xs : List IndexedWrite) → All (IsPlaced ws) xs → Goes (write_bools plc fl env j xs)
    unfolding write_bools
    write_bools-Reports j [] p s errs k = k
    write_bools-Reports j (x ∷ xs) p s errs k =
        on_context-lem ReportsAfter (env.stopped_later j) _ _
          (λ e. write_bools-Reports (j + 1) xs p.1 s _ (set-Reported env ws x (some e) errs p.0 k))
          (after_write-Reports x errs (write_bools plc fl env (j + 1) xs) _ p.0
            (write_bools-Reports (j + 1) xs p.1)
            (write_tag-Tried plc fl env x.write.tag x.write.value s) k)

    after_chunk-Reports :
        (xs : List IndexedWrite) (errs : Errors)
        (next : State plc fl env → Errors → State plc fl env × Outcome Errors)
        (r : State plc fl env × Outcome Errors)
        → All (IsPlaced ws) xs
        → Goes next
        → IsPrepared r.1
        → Reported env ws errs
        → ReportsAfter (after_chunk plc fl env xs errs next r)
    unfolding after_chunk
    after_chunk-Reports xs errs next (s, done es) p n h k =
        n s _ (copy_errors-Reported env ws xs es errs p k)
    after_chunk-Reports xs errs next (s, fails e) p n h k = h
    after_chunk-Reports xs errs next (s, panics) p n h k = h

    write_chunks-Reports :
        (j : ℕ) (xss : List (List IndexedWrite)) (bools : List IndexedWrite)
        → All (IsPlaced ws) (flat xss)
        → All (IsPlaced ws) bools
        → Goes (write_chunks plc fl env j xss bools)
    unfolding write_chunks
    write_chunks-Reports j [] bools p b s errs k = write_bools-Reports 0 bools b s errs k
    write_chunks-Reports j (xs ∷ rest) bools p b s errs k =
        let (mine, others) = All-append_inv (IsPlaced ws) xs (flat rest) p in
        on_context-lem ReportsAfter (env.stopped j) _ _
          (λ e.
            stop_unset-Reported env ws e bools _ b
              (stop_all-Reported env ws e (xs ++ flat rest) errs p k))
          (after_chunk-Reports xs errs (write_chunks plc fl env (j + 1) rest bools) _ mine
            (write_chunks-Reports (j + 1) rest bools others b)
            (write_tag_batch-IsPrepared xs (prepare_all plc fl env xs) s
              (prepare_all-IsPrepared xs))
            k)

  -- WriteTags of a connected S7 client always returns. Whatever the PLC answers and wherever the
  -- context ends, there is one report for each write, and the report of a write whose tag is not
  -- writable says so, at the place of that write.
  pub write_tags-Reported :
      (ws : List TagWrite) (w : plc.World) (c : S7Client)
      → c.connected ≡ true
      → Reports ws (write_tags plc fl env ws (w, c)).1
  unfolding write_tags
  write_tags-Reported [] w c on = record {
    same_length = refl;
    refused = λ j x here off. absurd (cc here);
  }
  write_tags-Reported (x ∷ xs) w c on =
      let ws = x ∷ xs in
      let p = separate plc fl env 0 ws in
      let (k, b, bools) =
        separate-Splits ws 0 ws
          (λ n j y e at. subst (λ (m : ℕ). get_elem? ws m ≡ some y) (omega (arith, e)) at) in
      simp on (
        write_chunks-Reports ws 0 (chunks max_multi_write_items p.batchable) p.bool_writes
          (subst (λ (us : List IndexedWrite). All (IsPlaced ws) us) (sym (flat-chunks p.batchable))
            b)
          bools (w, c) p.errs k)
