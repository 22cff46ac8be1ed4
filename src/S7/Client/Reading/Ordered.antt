-- ===== src/S7/Client/Reading/Ordered.antt =====
-- That ReadTags of internal/adapter/s7/client.go answers its tags in their order.
use protocol_gateway.Prelude.{
  ℕ, ◌+◌, ◌≡◌, refl, ◌⊎◌, inl, inr, List, [], ◌∷◌, ◌++◌, Option, none, some, length, arith,
  either_branch, subst,
}
use protocol_gateway.Prelude.Flat.{flat}
use protocol_gateway.Domain.Float.{Floats}
use protocol_gateway.Domain.Tag.{Tag}
use protocol_gateway.Domain.DataPoint.{DataPoint}
use protocol_gateway.Modbus.Errors.{ClientError, IoError, Outcome, done, fails, panics}
use protocol_gateway.S7.Batch.{S7ParsedTag, S7GroupKey}
use protocol_gateway.S7.Convert.Total.{parse_value-NoPanic}
use protocol_gateway.S7.Client.{S7Client, Plc, PlcItem, ItemAnswer, item_error, item_data}
use protocol_gateway.S7.Client.Single.{Surroundings, State, Reading, read_tag}
use protocol_gateway.S7.Client.Single.Ends.{OfTag, Returned, read_tag-Returned}
use protocol_gateway.S7.Client.Reading.{chunks, parse_all, max_multi_read_items}
use protocol_gateway.S7.Client.Reading.Located.{Pointed, error_point-tag, point_of-Pointed}
use protocol_gateway.S7.Client.Reading.Whole.{
  Readings, put_point, put_item, tag_items, tag_answer, then_points, batch_points, on_batch,
  read_tag_batch, then_each, read_each, after_batch, add_points, then_chunks, unless_stopped,
  fallback_chunks, after_optimized, read_tags,
}
use protocol_gateway.S7.Client.Reading.Optimized.{
  Answered, Complete, Batched, Read, Answered-append, Begun-append, flat-chunks, AttemptedAfter,
  read_tags_optimized-Attempted,
}

-- An item for each tag, unless an address fails.
abbrev Sized : List Tag → ClientError ⊎ List (PlcItem × ℕ) → Type 0
Sized ts (inl e) = Unit
Sized ts (inr items) = length items ≡ length ts

module _ (plc : Plc) (fl : Floats) (env : Surroundings) where
  put_item-Sized :
      (t : Tag) (ts : List Tag) (i : ClientError ⊎ (PlcItem × ℕ))
      (is : ClientError ⊎ List (PlcItem × ℕ))
      → Sized ts is
      → Sized (t ∷ ts) (put_item plc fl env i is)
  unfolding put_item
  put_item-Sized t ts (inl e) is h = tt
  put_item-Sized t ts (inr i) (inl e) h = tt
  put_item-Sized t ts (inr i) (inr is) h = ground (arith, h)

  tag_items-Sized : (ts : List Tag) → Sized ts (tag_items plc fl env ts)
  unfolding tag_items
  tag_items-Sized [] = refl
  tag_items-Sized (t ∷ ts) = put_item-Sized t ts _ _ (tag_items-Sized ts)

  tag_answer-Pointed :
      (t : Tag) (bit : ℕ) (a : ItemAnswer) (c : S7Client)
      → Pointed t (tag_answer plc fl env t bit a c)
  unfolding tag_answer
  tag_answer-Pointed t bit (item_error text) c = error_point-tag plc fl env c t _
  tag_answer-Pointed t bit (item_data xs) c =
      point_of-Pointed plc fl env c t _ (parse_value-NoPanic xs t bit)

  abbrev BatchedAfter : {S : Type 0} → List Tag → S × Outcome (List (Option DataPoint)) → Type 0
  BatchedAfter ts r = Batched ts r.1

  abbrev ReadAfter : {S : Type 0} → List Tag → S × Outcome (List (Option DataPoint)) → Type 0
  ReadAfter ts r = Read ts r.1

  put_point-Batched :
      {S : Type 0} (t : Tag) (ts : List Tag) (o : Option DataPoint)
      (r : S × Outcome (List (Option DataPoint)))
      → OfTag t o
      → BatchedAfter ts r
      → BatchedAfter (t ∷ ts) (put_point o r)
  unfolding put_point
  put_point-Batched t ts o (s, done os) p h = (p, h)
  put_point-Batched t ts o (s, fails e) p h = tt
  put_point-Batched t ts o (s, panics) p h = h

  put_point-Read :
      {S : Type 0} (t : Tag) (ts : List Tag) (o : Option DataPoint)
      (r : S × Outcome (List (Option DataPoint)))
      → OfTag t o
      → ReadAfter ts r
      → ReadAfter (t ∷ ts) (put_point o r)
  unfolding put_point
  put_point-Read t ts o (s, done os) p h = (p, h)
  put_point-Read t ts o (s, fails e) p h = h
  put_point-Read t ts o (s, panics) p h = h

  then_points-Batched :
      (t : Tag) (ts : List Tag) (next : S7Client → S7Client × Outcome (List (Option DataPoint)))
      (c : S7Client) (o : Outcome (S7Client × DataPoint))
      → ((c' : S7Client) → BatchedAfter ts (next c'))
      → Pointed t o
      → BatchedAfter (t ∷ ts) (then_points plc fl env next c o)
  unfolding then_points
  then_points-Batched t ts next c (done (c', p)) n h =
      put_point-Batched t ts (some p) (next c') h (n c')
  then_points-Batched t ts next c (fails e) n h = absurd h
  then_points-Batched t ts next c panics n h = h

  batch_points-Batched :
      (answers : ℕ → ItemAnswer) (i : ℕ) (ts : List Tag) (items : List (PlcItem × ℕ)) (c : S7Client)
      → length items ≡ length ts
      → BatchedAfter ts (batch_points plc fl env answers i ts items c)
  unfolding batch_points
  batch_points-Batched answers i [] items c h = tt
  batch_points-Batched answers i (t ∷ ts) [] c h = absurd (ground (arith, h))
  batch_points-Batched answers i (t ∷ ts) (item ∷ items) c h =
      then_points-Batched t ts (batch_points plc fl env answers (i + 1) ts items) c _
        (λ c'. batch_points-Batched answers (i + 1) ts items c' (omega (arith, h)))
        (tag_answer-Pointed t item.1 (answers i) c)

  on_batch-Batched :
      (ts : List Tag) (items : List (PlcItem × ℕ)) (c : S7Client) (r : IoError ⊎ (ℕ → ItemAnswer))
      → length items ≡ length ts
      → BatchedAfter ts (on_batch plc fl env ts items c r)
  unfolding on_batch
  on_batch-Batched ts items c (inl e) h = tt
  on_batch-Batched ts items c (inr answers) h = batch_points-Batched answers 0 ts items c h

  read_tag_batch-Batched :
      (ts : List Tag) (i : ClientError ⊎ List (PlcItem × ℕ)) (s : State plc fl env)
      → Sized ts i
      → BatchedAfter ts (read_tag_batch plc fl env ts i s)
  unfolding read_tag_batch
  read_tag_batch-Batched [] i s h = tt
  read_tag_batch-Batched (t ∷ ts) (inl e) s h = tt
  read_tag_batch-Batched (t ∷ ts) (inr items) (w, c) h =
      either_branch (BatchedAfter (t ∷ ts)) c.has_client
        (λ _. on_batch-Batched (t ∷ ts) items c _ h) (λ _. tt)

  then_each-Read :
      (t : Tag) (ts : List Tag)
      (next : State plc fl env → State plc fl env × Outcome (List (Option DataPoint)))
      (r : State plc fl env × Outcome (Reading plc fl env))
      → ((s : State plc fl env) → ReadAfter ts (next s))
      → Returned plc fl env t r.1
      → ReadAfter (t ∷ ts) (then_each plc fl env next r)
  unfolding then_each
  then_each-Read t ts next (s, done r) n h = put_point-Read t ts r.0 (next s) h (n s)
  then_each-Read t ts next (s, fails e) n h = h
  then_each-Read t ts next (s, panics) n h = h

  read_each-Read : (ts : List Tag) (s : State plc fl env) → ReadAfter ts (read_each plc fl env ts s)
  unfolding read_each
  read_each-Read [] s = tt
  read_each-Read (t ∷ ts) s =
      then_each-Read t ts (read_each plc fl env ts) (read_tag plc fl env t s)
        (λ s'. read_each-Read ts s') (read_tag-Returned plc fl env t s)

  after_batch-Read :
      (ts : List Tag) (r : State plc fl env × Outcome (List (Option DataPoint)))
      → BatchedAfter ts r
      → ReadAfter ts (after_batch plc fl env ts r)
  unfolding after_batch
  after_batch-Read ts (s, done os) h = h
  after_batch-Read ts (s, fails e) h = read_each-Read ts s
  after_batch-Read ts (s, panics) h = h

  abbrev CompleteAfter : List Tag → State plc fl env × Outcome Readings → Type 0
  CompleteAfter ts r = Complete ts r.1

  add_points-Complete :
      (ts us : List Tag) (os : List (Option DataPoint)) (r : State plc fl env × Outcome Readings)
      → Answered ts os
      → CompleteAfter us r
      → CompleteAfter (ts ++ us) (add_points plc fl env os r)
  unfolding add_points
  add_points-Complete ts us os (s, done (qs, none)) a h = Answered-append ts us os qs a h
  add_points-Complete ts us os (s, done (qs, some e)) a h = Begun-append ts us os qs a h
  add_points-Complete ts us os (s, fails e) a h = h
  add_points-Complete ts us os (s, panics) a h = h

  then_chunks-Complete :
      (ts us : List Tag) (next : State plc fl env → State plc fl env × Outcome Readings)
      (r : State plc fl env × Outcome (List (Option DataPoint)))
      → ((s : State plc fl env) → CompleteAfter us (next s))
      → ReadAfter ts r
      → CompleteAfter (ts ++ us) (then_chunks plc fl env next r)
  unfolding then_chunks
  then_chunks-Complete ts us next (s, done os) n h = add_points-Complete ts us os (next s) h (n s)
  then_chunks-Complete ts us next (s, fails e) n h = h
  then_chunks-Complete ts us next (s, panics) n h = h

  unless_stopped-Complete :
      (ts : List Tag) (o : Option ClientError) (s : State plc fl env)
      (next : State plc fl env × Outcome Readings)
      → CompleteAfter ts next
      → CompleteAfter ts (unless_stopped plc fl env o s next)
  unfolding unless_stopped
  unless_stopped-Complete ts (some e) s next h = tt
  unless_stopped-Complete ts none s next h = h

  fallback_chunks-Complete :
      (k : ℕ) (tss : List (List Tag)) (s : State plc fl env)
      → CompleteAfter (flat tss) (fallback_chunks plc fl env k tss s)
  unfolding fallback_chunks
  fallback_chunks-Complete k [] s = tt
  fallback_chunks-Complete k (ts ∷ rest) s =
      unless_stopped-Complete (ts ++ flat rest) (env.stopped_later k) s _ (
        then_chunks-Complete ts (flat rest) (fallback_chunks plc fl env (k + 1) rest) _
          (λ s'. fallback_chunks-Complete (k + 1) rest s')
          (after_batch-Read ts _
            (read_tag_batch-Batched ts (tag_items plc fl env ts) s (tag_items-Sized ts))))

  after_optimized-Complete :
      (ts : List Tag) (r : State plc fl env × Outcome Readings)
      → AttemptedAfter plc fl env ts r
      → CompleteAfter ts (after_optimized plc fl env ts r)
  unfolding after_optimized
  after_optimized-Complete ts (s, done r) h = h
  after_optimized-Complete ts (s, fails e) h =
      subst
        (λ (us : List Tag).
          CompleteAfter us (fallback_chunks plc fl env 0 (chunks max_multi_read_items ts) s))
        (flat-chunks ts) (fallback_chunks-Complete 0 (chunks max_multi_read_items ts) s)
  after_optimized-Complete ts (s, panics) h = h

  -- ReadTags of S7 always returns. Whatever the PLC answers, and in whatever order the groups are
  -- walked, without an error there is one answer for each tag, in the order of the tags, and each
  -- point is of its tag; with an error the answers are those of the first tags.
  pub read_tags-Complete :
      (order : List (S7GroupKey × List S7ParsedTag) → List (S7GroupKey × List S7ParsedTag))
      (ts : List Tag) (s : State plc fl env)
      → Complete ts (read_tags plc fl env order ts s).1
  unfolding read_tags
  read_tags-Complete order [] s = tt
  read_tags-Complete order (t ∷ ts) (w, c) =
      either_branch (CompleteAfter (t ∷ ts)) c.connected
        (λ _.
          after_optimized-Complete (t ∷ ts) _
            (read_tags_optimized-Attempted plc fl env order (t ∷ ts) (w, c) (parse_all (t ∷ ts))))
        (λ _. tt)
