-- ===== src/S7/Client/Reading/Optimized.antt =====
-- That the optimized path of ReadTags of internal/adapter/s7/client.go answers its tags in order.
use protocol_gateway.Prelude.{
  ℕ, zero, suc, ◌+◌, ◌≤◌, ◌≡◌, refl, ◌⊎◌, inl, inr, List, [], ◌∷◌, ◌++◌, Option, none, some, length,
  take, drop, take-append-drop, length-drop, arith, ap, ◌∙◌, Option-cases,
}
use protocol_gateway.Prelude.Dict.{lookup}
use protocol_gateway.Prelude.Dict.Keys.{All-lookup}
use protocol_gateway.Prelude.Flat.{flat}
use protocol_gateway.Domain.Errors.{Error}
use protocol_gateway.Domain.Float.{Floats}
use protocol_gateway.Domain.Tag.{Tag}
use protocol_gateway.Domain.DataPoint.{DataPoint, acquire_data_point}
use protocol_gateway.Modbus.Errors.{ClientError, Outcome, done, fails, panics}
use protocol_gateway.S7.Batch.{S7ParsedTag, S7ByteRange, S7GroupKey}
use protocol_gateway.S7.Client.{S7Client, Plc, create_error_data_point}
use protocol_gateway.S7.Client.Single.{Surroundings, State}
use protocol_gateway.S7.Client.Single.Ends.{OfTag}
use protocol_gateway.S7.Client.Reading.{Points, chunks, chunks_from, max_multi_read_items}
use protocol_gateway.S7.Client.Reading.Located.{Keyed, Stored, read_contiguous_ranges-Stored}
use protocol_gateway.S7.Client.Reading.Whole.{
  Readings, unless_ended, then_ranges, range_chunks, assembled, assemble, optimized_end,
  read_tags_optimized,
}

-- An answer for each tag, in their order: no point, or one of the tag.
abbrev pub Answered : List Tag → List (Option DataPoint) → Type 0
Answered [] [] = Unit
Answered [] (o ∷ os) = ⊥
Answered (t ∷ ts) [] = ⊥
Answered (t ∷ ts) (o ∷ os) = OfTag t o × Answered ts os

-- Answers for the first of the tags.
abbrev pub Begun : List Tag → List (Option DataPoint) → Type 0
Begun ts [] = Unit
Begun [] (o ∷ os) = ⊥
Begun (t ∷ ts) (o ∷ os) = OfTag t o × Begun ts os

-- All the tags are answered, or the first ones where there is an error.
abbrev pub AnswersTags : List Tag → Readings → Type 0
AnswersTags ts (os, none) = Answered ts os
AnswersTags ts (os, some e) = Begun ts os

abbrev pub Complete : List Tag → Outcome Readings → Type 0
Complete ts (done r) = AnswersTags ts r
Complete ts (fails e) = ⊥
Complete ts panics = ⊥

abbrev pub Attempted : List Tag → Outcome Readings → Type 0
Attempted ts (done r) = AnswersTags ts r
Attempted ts (fails e) = Unit
Attempted ts panics = ⊥

-- The answers of a chunk, of an attempt and at last.
abbrev pub Batched : List Tag → Outcome (List (Option DataPoint)) → Type 0
Batched ts (done os) = Answered ts os
Batched ts (fails e) = Unit
Batched ts panics = ⊥

abbrev pub Read : List Tag → Outcome (List (Option DataPoint)) → Type 0
Read ts (done os) = Answered ts os
Read ts (fails e) = ⊥
Read ts panics = ⊥

pub Answered-append :
    (ts us : List Tag) (os qs : List (Option DataPoint))
    → Answered ts os
    → Answered us qs
    → Answered (ts ++ us) (os ++ qs)
Answered-append [] us [] qs h k = k
Answered-append [] us (o ∷ os) qs h k = absurd h
Answered-append (t ∷ ts) us [] qs h k = absurd h
Answered-append (t ∷ ts) us (o ∷ os) qs (p, h) k = (p, Answered-append ts us os qs h k)

pub Begun-append :
    (ts us : List Tag) (os qs : List (Option DataPoint))
    → Answered ts os
    → Begun us qs
    → Begun (ts ++ us) (os ++ qs)
Begun-append [] us [] qs h k = k
Begun-append [] us (o ∷ os) qs h k = absurd h
Begun-append (t ∷ ts) us [] qs h k = absurd h
Begun-append (t ∷ ts) us (o ∷ os) qs (p, h) k = (p, Begun-append ts us os qs h k)

-- The chunks are the list.
flat-chunks_from :
    {A : Type 0} (fuel n : ℕ) (ts : List A)
    → length ts ≤ fuel
    → flat (chunks_from fuel (suc n) ts) ≡ ts
unfolding chunks_from
flat-chunks_from zero n [] h = refl
flat-chunks_from zero n (t ∷ ts) h = absurd (ground (arith, h))
flat-chunks_from (suc fuel) n [] h = refl
flat-chunks_from (suc fuel) n (t ∷ ts) h =
    ap (λ us. t ∷ take n ts ++ us)
      (flat-chunks_from fuel n (drop n ts) (omega (arith, length-drop n ts)))
    ∙ ap (λ us. t ∷ us) (take-append-drop n ts)

pub flat-chunks : {A : Type 0} (ts : List A) → flat (chunks max_multi_read_items ts) ≡ ts
unfolding chunks
flat-chunks ts = flat-chunks_from (length ts) 19 ts (omega arith)

module _ (plc : Plc) (fl : Floats) (env : Surroundings) where
  abbrev ChunkStored : plc.World × S7Client × Outcome Points → Type 0
  ChunkStored r = Stored r.2

  unless_ended-Stored :
      (o : Option ClientError) (w : plc.World) (c : S7Client)
      (next : plc.World × S7Client × Outcome Points)
      → ChunkStored next
      → ChunkStored (unless_ended plc fl env o w c next)
  unfolding unless_ended
  unless_ended-Stored (some e) w c next h = tt
  unless_ended-Stored none w c next h = h

  then_ranges-Stored :
      (next : plc.World → S7Client → Points → plc.World × S7Client × Outcome Points)
      (r : plc.World × S7Client × Outcome Points)
      → ((w : plc.World) (c : S7Client) (m : Points) → Keyed m → ChunkStored (next w c m))
      → ChunkStored r
      → ChunkStored (then_ranges plc fl env next r)
  unfolding then_ranges
  then_ranges-Stored next (w, c, done m) n h = n w c m h
  then_ranges-Stored next (w, c, fails e) n h = tt
  then_ranges-Stored next (w, c, panics) n h = h

  range_chunks-Stored :
      (k : ℕ) (rss : List (List S7ByteRange)) (w : plc.World) (c : S7Client) (m : Points)
      → Keyed m
      → ChunkStored (range_chunks plc fl env k rss w c m)
  unfolding range_chunks
  range_chunks-Stored k [] w c m h = h
  range_chunks-Stored k (rs ∷ rest) w c m h = unless_ended-Stored (env.stopped k) w c _ (
      then_ranges-Stored (range_chunks plc fl env (k + 1) rest) _
        (λ w' c' m' h'. range_chunks-Stored (k + 1) rest w' c' m' h')
        (read_contiguous_ranges-Stored plc fl env rs w c m h))

  assembled-OfTag :
      (c : S7Client) (m : Points) (t : Tag) → Keyed m → OfTag t (assembled plc fl env c m t)
  unfolding assembled create_error_data_point acquire_data_point
  assembled-OfTag c m t h = elim (Option-cases (lookup t.id m)) [
    | inl n ↦ rw (OfTag, assembled, n) refl
    | inr (p, e) ↦ rw (OfTag, assembled, e) (All-lookup (λ key p. p.tag_id ≡ key) t.id m h e)
  ]

  assemble-Answered :
      (c : S7Client) (m : Points) (ts : List Tag)
      → Keyed m
      → Answered ts (assemble plc fl env c m ts)
  unfolding assemble
  assemble-Answered c m [] h = tt
  assemble-Answered c m (t ∷ ts) h = (assembled-OfTag c m t h, assemble-Answered c m ts h)

  abbrev pub AttemptedAfter : List Tag → State plc fl env × Outcome Readings → Type 0
  AttemptedAfter ts r = Attempted ts r.1

  optimized_end-Attempted :
      (ts : List Tag) (r : plc.World × S7Client × Outcome Points)
      → ChunkStored r
      → AttemptedAfter ts (optimized_end plc fl env ts r)
  unfolding optimized_end
  optimized_end-Attempted ts (w, c, done m) h = assemble-Answered c m ts h
  optimized_end-Attempted ts (w, c, fails e) h = tt
  optimized_end-Attempted ts (w, c, panics) h = h

  module _
      (order : List (S7GroupKey × List S7ParsedTag) → List (S7GroupKey × List S7ParsedTag)) where
    pub read_tags_optimized-Attempted :
        (ts : List Tag) (s : State plc fl env) (p : Error ⊎ List S7ParsedTag)
        → AttemptedAfter ts (read_tags_optimized plc fl env order ts s p)
    unfolding read_tags_optimized
    read_tags_optimized-Attempted ts s (inl e) = tt
    read_tags_optimized-Attempted ts (w, c) (inr ps) =
        optimized_end-Attempted ts _ (range_chunks-Stored 0 _ w c [] tt)
