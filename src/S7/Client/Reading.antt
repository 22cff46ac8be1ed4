-- ===== src/S7/Client/Reading.antt =====
-- Reading many tags (internal/adapter/s7/client.go, from ReadTags to getWordLength). The state is
-- the world of the PLC and the client.
pub mod Located
pub mod Whole
pub mod Optimized
pub mod Ordered
use protocol_gateway.Prelude.{
  ℕ, zero, suc, ◌+◌, Bool, true, false, ◌⊎◌, inl, inr, String, List, [], ◌∷◌, ◌++◌, map, Option,
  none, some, ltb, length, take, drop, replicate, if◌then◌else◌,
}
use protocol_gateway.Prelude.Text.{bytes}
use protocol_gateway.Prelude.Dict.{lookup, insert}
use protocol_gateway.Domain.Errors.{
  Error, Result, ok, err, panic, connection_closed, s7_invalid_area, s7_read_failed,
}
use protocol_gateway.Domain.Float.{Floats}
use protocol_gateway.Domain.Value.{Value}
use protocol_gateway.Domain.Tag.{Tag, DataType, S7Area}
use protocol_gateway.Domain.DataPoint.{DataPoint}
use protocol_gateway.Modbus.Errors.{
  ClientError, IoError, io_text, io, plain, Outcome, done, fails, panics, domain, wrapped,
}
use protocol_gateway.S7.Address.{S7Location, parse_tag_address}
use protocol_gateway.S7.Batch.{
  S7ParsedTag, S7ByteRange, S7TagInRange, S7GroupKey, default_s7_batch_config,
  build_s7_contiguous_ranges,
}
use protocol_gateway.S7.Convert.{parse_value, get_byte_count}
use protocol_gateway.S7.Client.{
  S7Client, Plc, PlcItem, ItemAnswer, item_error, item_data, has_area_code, record_tag_error,
  record_tag_success, create_error_data_point,
}
use protocol_gateway.S7.Client.Single.{Surroundings, State, Reading, data_point, read_tag}

-- MaxMultiReadItems.
abbrev pub max_multi_read_items : ℕ
max_multi_read_items = 20

-- getWordLength: a bit, a byte, a word, a double word or a real.
unfoldable pub get_word_length : DataType → ℕ
get_word_length DataType.bool = 1
get_word_length DataType.int16 = 4
get_word_length DataType.uint16 = 4
get_word_length DataType.int32 = 6
get_word_length DataType.uint32 = 6
get_word_length DataType.float32 = 8
get_word_length _ = 2

-- The slices of at most n elements, from the front: the length of the list is fuel enough.
unfoldable pub chunks_from {ℓ} : {A : Type ℓ} → ℕ → ℕ → List A → List (List A)
chunks_from zero n xs = []
chunks_from (suc fuel) n [] = []
chunks_from (suc fuel) n (x ∷ xs) = take n (x ∷ xs) ∷ chunks_from fuel n (drop n (x ∷ xs))

unfoldable pub chunks {ℓ} : {A : Type ℓ} → ℕ → List A → List (List A)
unfolding chunks_from
chunks n xs = chunks_from (length xs) n xs

-- The first step of readTagsOptimized: an address that cannot be parsed ends it.
unfoldable pub parse_all : List Tag → Error ⊎ List S7ParsedTag
parse_all [] = inr []
parse_all (t ∷ ts) =
    let rest = parse_all ts in
    elim (parse_tag_address t) [
      | inl e ↦ inl e
      | inr l ↦ elim rest [
        | inl e ↦ inl e
        | inr ps ↦ inr (
            record {
              tag = t;
              area = l.area;
              db_number = l.db_number;
              offset = l.offset;
              bit_offset = l.bit_offset;
              byte_count = get_byte_count t.data_type;
            }
            ∷ ps)
      ]
    ]

-- resultMap.
abbrev pub Points : Type 0
Points = List (String × DataPoint)

all_known : List S7ByteRange → Bool
all_known [] = true
all_known (r ∷ rs) = if has_area_code r.area then all_known rs else false

range_item : S7ByteRange → PlcItem
range_item r = record {
  area = r.area;
  word_len = 2;
  db_number = r.db_number;
  start = r.start_offset;
  bit = 0;
  amount = r.total_bytes;
  content = replicate r.total_bytes 0;
}

module _ (plc : Plc) (fl : Floats) (env : Surroundings) where
  -- A tag that could not be read, and one that was: what is counted, and its point.
  unfoldable pub error_point : S7Client → Tag → ClientError → S7Client × DataPoint
  error_point c t e =
      let c' = record_tag_error t.id e (record c { error_count = c.error_count + 1 }) in
      (c', create_error_data_point c' t e)

  unfoldable pub point_of : S7Client → Tag → Result Value → Outcome (S7Client × DataPoint)
  unfolding error_point
  point_of c t (ok v) = done (
    record_tag_success t.id (record c { read_count = c.read_count + 1 }),
    data_point plc fl env c t v,
  )
  point_of c t (err e) = done (error_point c t (domain e))
  point_of c t panic = panics

  -- One tag of a range: its bytes are cut out of those of the range.
  cut_out : List ℕ → S7TagInRange → S7Client → Outcome (S7Client × DataPoint)
  unfolding error_point point_of
  cut_out xs t c =
      if ltb (length xs) (t.offset + t.byte_count)
      then done (error_point c t.tag (io (plain (env.excess t xs))))
      else point_of c t.tag (parse_value (take t.byte_count (drop t.offset xs)) t.tag t.bit_offset)

  range_tag : ItemAnswer → S7TagInRange → S7Client → Outcome (S7Client × DataPoint)
  unfolding error_point cut_out
  range_tag (item_error text) t c = done (error_point c t.tag (io (plain text)))
  range_tag (item_data xs) t c = cut_out xs t c

  -- What becomes of a tag is stored, and the rest follows.
  store_tag :
      String
      → Points
      → S7Client
      → Outcome (S7Client × DataPoint)
      → (S7Client → Points → S7Client × Outcome Points)
      → S7Client × Outcome Points
  store_tag id m c (done (c', p)) next = next c' (insert id p m)
  store_tag id m c (fails e) next = (c, fails e)
  store_tag id m c panics next = (c, panics)

  range_tags : ItemAnswer → List S7TagInRange → S7Client → Points → S7Client × Outcome Points
  unfolding store_tag range_tag
  range_tags a [] c m = (c, done m)
  range_tags a (t ∷ ts) c m = store_tag t.tag.id m c (range_tag a t c) (range_tags a ts)

  and_then :
      S7Client × Outcome Points
      → (S7Client → Points → S7Client × Outcome Points)
      → S7Client × Outcome Points
  and_then (c, done m) next = next c m
  and_then (c, fails e) next = (c, fails e)
  and_then (c, panics) next = (c, panics)

  -- The loop over the ranges and their items, from the index i.
  all_ranges :
      (ℕ → ItemAnswer) → ℕ → List S7ByteRange → S7Client → Points → S7Client × Outcome Points
  unfolding range_tags and_then
  all_ranges answers i [] c m = (c, done m)
  all_ranges answers i (r ∷ rs) c m =
      and_then (range_tags (answers i) r.tags c m) (all_ranges answers (i + 1) rs)

  on_read :
      List S7ByteRange → S7Client → Points → IoError ⊎ (ℕ → ItemAnswer) → S7Client × Outcome Points
  unfolding all_ranges
  on_read rs c m (inl e) =
      (c, fails (wrapped s7_read_failed (bytes "AGReadMulti failed: " ++ io_text e)))
  on_read rs c m (inr answers) = all_ranges answers 0 rs c m

  -- readContiguousRanges.
  unfoldable pub read_contiguous_ranges :
      List S7ByteRange → plc.World → S7Client → Points → plc.World × S7Client × Outcome Points
  unfolding on_read all_known range_item
  read_contiguous_ranges rs w c m =
      if all_known rs
      then if c.has_client
        then (let (w', r) = plc.ag_read_multi (map range_item rs) w in
            let (c', out) = on_read rs c m r in (w', c', out))
        else (w, c, fails (domain connection_closed))
      else (w, c, fails (domain s7_invalid_area))
