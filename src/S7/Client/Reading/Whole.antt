-- ===== src/S7/Client/Reading/Whole.antt =====
-- ReadTags of internal/adapter/s7/client.go: the optimized path, and the one it falls back on.
use protocol_gateway.Prelude.{
  ℕ, ◌+◌, ◌⊎◌, inl, inr, List, [], ◌∷◌, ◌++◌, map, Option, none, some, replicate, if◌then◌else◌,
}
use protocol_gateway.Prelude.Text.{bytes}
use protocol_gateway.Prelude.Dict.{lookup}
use protocol_gateway.Domain.Errors.{Error, connection_closed, s7_invalid_area, s7_read_failed}
use protocol_gateway.Domain.Float.{Floats}
use protocol_gateway.Domain.Tag.{Tag}
use protocol_gateway.Domain.DataPoint.{DataPoint}
use protocol_gateway.Modbus.Errors.{
  ClientError, IoError, io_text, io, plain, Outcome, done, fails, panics, domain, wrapped,
}
use protocol_gateway.S7.Address.{S7Location, parse_tag_address}
use protocol_gateway.S7.Batch.{
  S7ParsedTag, S7ByteRange, S7GroupKey, default_s7_batch_config, build_s7_contiguous_ranges,
}
use protocol_gateway.S7.Convert.{parse_value, get_byte_count}
use protocol_gateway.S7.Client.{
  S7Client, Plc, PlcItem, ItemAnswer, item_error, item_data, has_area_code, create_error_data_point,
}
use protocol_gateway.S7.Client.Single.{Surroundings, State, read_tag}
use protocol_gateway.S7.Client.Reading.{
  Points, chunks, parse_all, read_contiguous_ranges, error_point, point_of, get_word_length,
  max_multi_read_items, Reading,
}

-- What ReadTags returns: the points, where a tag may have none, and an error or none.
abbrev pub Readings : Type 0
Readings = List (Option DataPoint) × Option ClientError

-- One point more, in front.
unfoldable pub put_point :
    {S : Type 0}
    → Option DataPoint
    → S × Outcome (List (Option DataPoint))
    → S × Outcome (List (Option DataPoint))
put_point o (s, done ps) = (s, done (o ∷ ps))
put_point o (s, fails e) = (s, fails e)
put_point o (s, panics) = (s, panics)

module _ (plc : Plc) (fl : Floats) (env : Surroundings) where
  -- The rest of the loop over the chunks, unless the context has ended or the chunk failed.
  unfoldable pub unless_ended :
      Option ClientError
      → plc.World
      → S7Client
      → plc.World × S7Client × Outcome Points
      → plc.World × S7Client × Outcome Points
  unless_ended (some e) w c next = (w, c, fails e)
  unless_ended none w c next = next

  unfoldable pub then_ranges :
      (plc.World → S7Client → Points → plc.World × S7Client × Outcome Points)
      → plc.World × S7Client × Outcome Points
      → plc.World × S7Client × Outcome Points
  then_ranges next (w, c, done m) = next w c m
  then_ranges next (w, c, fails e) = (w, c, fails e)
  then_ranges next (w, c, panics) = (w, c, panics)

  -- Step 3: the chunks of the ranges, from the index k.
  unfoldable pub range_chunks :
      ℕ
      → List (List S7ByteRange)
      → plc.World
      → S7Client
      → Points
      → plc.World × S7Client × Outcome Points
  unfolding read_contiguous_ranges unless_ended then_ranges
  range_chunks k [] w c m = (w, c, done m)
  range_chunks k (rs ∷ rest) w c m =
      unless_ended (env.stopped k) w c
        (then_ranges (range_chunks (k + 1) rest) (read_contiguous_ranges plc fl env rs w c m))

  -- Step 4: the points in the order of the tags.
  unfoldable pub assembled : S7Client → Points → Tag → Option DataPoint
  assembled c m t = elim (lookup t.id m) [
    | none ↦ some (create_error_data_point c t (io (plain (env.missing t))))
    | some p ↦ some p
  ]

  unfoldable pub assemble : S7Client → Points → List Tag → List (Option DataPoint)
  unfolding assembled
  assemble c m [] = []
  assemble c m (t ∷ ts) = assembled c m t ∷ assemble c m ts

  unfoldable pub optimized_end :
      List Tag → plc.World × S7Client × Outcome Points → State plc fl env × Outcome Readings
  unfolding assemble
  optimized_end ts (w, c, done m) = ((w, c), done (assemble c m ts, none))
  optimized_end ts (w, c, fails e) = ((w, c), fails e)
  optimized_end ts (w, c, panics) = ((w, c), panics)

  -- readTagsOptimized; `order` is the order in which Go walks the groups of tags.
  unfoldable pub read_tags_optimized :
      (List (S7GroupKey × List S7ParsedTag) → List (S7GroupKey × List S7ParsedTag))
      → List Tag
      → State plc fl env
      → Error ⊎ List S7ParsedTag
      → State plc fl env × Outcome Readings
  unfolding optimized_end range_chunks chunks build_s7_contiguous_ranges
  read_tags_optimized order ts s (inl e) = (s, fails (domain e))
  read_tags_optimized order ts (w, c) (inr ps) = optimized_end ts (
      range_chunks 0
        (chunks max_multi_read_items (build_s7_contiguous_ranges order ps default_s7_batch_config))
        w c [])

  -- The item of a tag in readTagBatch, or the error of its address.
  unfoldable pub tag_item : Tag → Error ⊎ S7Location → ClientError ⊎ (PlcItem × ℕ)
  unfolding get_word_length
  tag_item t (inl e) = inl (domain e)
  tag_item t (inr l) =
      if has_area_code l.area
      then inr (
        record {
          area = l.area;
          word_len = get_word_length t.data_type;
          db_number = l.db_number;
          start = l.offset;
          bit = l.bit_offset;
          amount = get_byte_count t.data_type;
          content = replicate (get_byte_count t.data_type) 0;
        },
        l.bit_offset,
      )
      else inl (domain s7_invalid_area)

  unfoldable pub put_item :
      ClientError ⊎ (PlcItem × ℕ)
      → ClientError ⊎ List (PlcItem × ℕ)
      → ClientError ⊎ List (PlcItem × ℕ)
  put_item (inl e) is = inl e
  put_item (inr i) (inl e) = inl e
  put_item (inr i) (inr is) = inr (i ∷ is)

  unfoldable pub tag_items : List Tag → ClientError ⊎ List (PlcItem × ℕ)
  unfolding tag_item put_item
  tag_items [] = inr []
  tag_items (t ∷ ts) = put_item (tag_item t (parse_tag_address t)) (tag_items ts)

  unfoldable pub tag_answer : Tag → ℕ → ItemAnswer → S7Client → Outcome (S7Client × DataPoint)
  tag_answer t bit (item_error text) c = done (error_point plc fl env c t (io (plain text)))
  tag_answer t bit (item_data xs) c = point_of plc fl env c t (parse_value xs t bit)

  -- The loop over the items, from the index i; each has the bit offset of its tag.
  unfoldable pub then_points :
      (S7Client → S7Client × Outcome (List (Option DataPoint)))
      → S7Client
      → Outcome (S7Client × DataPoint)
      → S7Client × Outcome (List (Option DataPoint))
  then_points next c (done (c', p)) = put_point (some p) (next c')
  then_points next c (fails e) = (c, fails e)
  then_points next c panics = (c, panics)

  unfoldable pub batch_points :
      (ℕ → ItemAnswer)
      → ℕ
      → List Tag
      → List (PlcItem × ℕ)
      → S7Client
      → S7Client × Outcome (List (Option DataPoint))
  unfolding tag_answer then_points
  batch_points answers i [] items c = (c, done [])
  batch_points answers i (t ∷ ts) [] c = (c, done [])
  batch_points answers i (t ∷ ts) (item ∷ items) c =
      then_points (batch_points answers (i + 1) ts items) c (tag_answer t item.1 (answers i) c)

  unfoldable pub on_batch :
      List Tag
      → List (PlcItem × ℕ)
      → S7Client
      → IoError ⊎ (ℕ → ItemAnswer)
      → S7Client × Outcome (List (Option DataPoint))
  unfolding batch_points
  on_batch ts items c (inl e) =
      (c, fails (wrapped s7_read_failed (bytes "AGReadMulti failed: " ++ io_text e)))
  on_batch ts items c (inr answers) = batch_points answers 0 ts items c

  -- readTagBatch.
  unfoldable pub read_tag_batch :
      List Tag
      → ClientError ⊎ List (PlcItem × ℕ)
      → State plc fl env
      → State plc fl env × Outcome (List (Option DataPoint))
  unfolding on_batch
  read_tag_batch [] i s = (s, done [])
  read_tag_batch (t ∷ ts) (inl e) s = (s, fails e)
  read_tag_batch (t ∷ ts) (inr items) (w, c) =
      if c.has_client
      then (let (w', r) = plc.ag_read_multi (map (λ i. i.0) items) w in
          let (c', out) = on_batch (t ∷ ts) items c r in ((w', c'), out))
      else ((w, c), fails (domain connection_closed))

  -- The tags of a batch that failed are read one by one; what ReadTag returns is kept, point or none.
  unfoldable pub then_each :
      (State plc fl env → State plc fl env × Outcome (List (Option DataPoint)))
      → State plc fl env × Outcome (Reading plc fl env)
      → State plc fl env × Outcome (List (Option DataPoint))
  then_each next (s, done r) = put_point r.0 (next s)
  then_each next (s, fails e) = (s, fails e)
  then_each next (s, panics) = (s, panics)

  unfoldable pub read_each :
      List Tag → State plc fl env → State plc fl env × Outcome (List (Option DataPoint))
  unfolding then_each
  read_each [] s = (s, done [])
  read_each (t ∷ ts) s = then_each (read_each ts) (read_tag plc fl env t s)

  unfoldable pub after_batch :
      List Tag
      → State plc fl env × Outcome (List (Option DataPoint))
      → State plc fl env × Outcome (List (Option DataPoint))
  unfolding read_each
  after_batch ts (s, done ps) = (s, done ps)
  after_batch ts (s, fails e) = read_each ts s
  after_batch ts (s, panics) = (s, panics)

  -- The points of a chunk, before those of the rest.
  unfoldable pub add_points :
      List (Option DataPoint)
      → State plc fl env × Outcome Readings
      → State plc fl env × Outcome Readings
  add_points ps (s, done (qs, e)) = (s, done (ps ++ qs, e))
  add_points ps (s, fails e) = (s, fails e)
  add_points ps (s, panics) = (s, panics)

  unfoldable pub then_chunks :
      (State plc fl env → State plc fl env × Outcome Readings)
      → State plc fl env × Outcome (List (Option DataPoint))
      → State plc fl env × Outcome Readings
  unfolding add_points
  then_chunks next (s, done ps) = add_points ps (next s)
  then_chunks next (s, fails e) = (s, fails e)
  then_chunks next (s, panics) = (s, panics)

  unfoldable pub unless_stopped :
      Option ClientError
      → State plc fl env
      → State plc fl env × Outcome Readings
      → State plc fl env × Outcome Readings
  unless_stopped (some e) s next = (s, done ([], some e))
  unless_stopped none s next = next

  -- readTagsFallback: a context that ends leaves the points read so far.
  unfoldable pub fallback_chunks :
      ℕ → List (List Tag) → State plc fl env → State plc fl env × Outcome Readings
  unfolding after_batch read_tag_batch tag_items then_chunks unless_stopped
  fallback_chunks k [] s = (s, done ([], none))
  fallback_chunks k (ts ∷ rest) s = unless_stopped (env.stopped_later k) s (
      then_chunks (fallback_chunks (k + 1) rest)
        (after_batch ts (read_tag_batch ts (tag_items ts) s)))

  unfoldable pub after_optimized :
      List Tag → State plc fl env × Outcome Readings → State plc fl env × Outcome Readings
  unfolding fallback_chunks chunks
  after_optimized ts (s, done r) = (s, done r)
  after_optimized ts (s, fails e) = fallback_chunks 0 (chunks max_multi_read_items ts) s
  after_optimized ts (s, panics) = (s, panics)

  -- ReadTags.
  unfoldable pub read_tags :
      (List (S7GroupKey × List S7ParsedTag) → List (S7GroupKey × List S7ParsedTag))
      → List Tag
      → State plc fl env
      → State plc fl env × Outcome Readings
  unfolding after_optimized read_tags_optimized parse_all
  read_tags order [] s = (s, done ([], none))
  read_tags order (t ∷ ts) (w, c) =
      if c.connected
      then after_optimized (t ∷ ts) (read_tags_optimized order (t ∷ ts) (w, c) (parse_all (t ∷ ts)))
      else ((w, c), done ([], some (domain connection_closed)))
