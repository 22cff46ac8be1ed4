-- ===== src/S7/Client/Reading/Located.antt =====
-- The points of the ranges of internal/adapter/s7/client.go are stored under the keys of their tags.
use protocol_gateway.Prelude.{
  ℕ, ◌+◌, ◌≡◌, refl, ◌⊎◌, inl, inr, String, List, [], ◌∷◌, map, All, ltb, length, either_branch,
  take, drop,
}
use protocol_gateway.Prelude.Dict.Keys.{All-insert}
use protocol_gateway.Domain.Errors.{Result, ok, err, panic}
use protocol_gateway.Domain.Float.{Floats}
use protocol_gateway.Domain.Value.{Value}
use protocol_gateway.Domain.Tag.{Tag}
use protocol_gateway.Domain.DataPoint.{DataPoint, acquire_data_point}
use protocol_gateway.Modbus.Errors.{ClientError, IoError, Outcome, done, fails, panics}
use protocol_gateway.S7.Batch.{S7ByteRange, S7TagInRange}
use protocol_gateway.S7.Convert.Total.{NoPanic, parse_value-NoPanic}
use protocol_gateway.S7.Client.{
  S7Client, Plc, ItemAnswer, item_error, item_data, create_error_data_point,
}
use protocol_gateway.S7.Client.Single.{Surroundings}
use protocol_gateway.S7.Client.Single.Ends.{data_point-tag}
use protocol_gateway.S7.Client.Reading.{
  Points, error_point, point_of, cut_out, range_tag, store_tag, range_tags, and_then, all_ranges,
  on_read, read_contiguous_ranges, all_known, range_item,
}

-- A point of the tag, always.
abbrev pub Pointed : Tag → Outcome (S7Client × DataPoint) → Type 0
Pointed t (done r) = r.1.tag_id ≡ t.id
Pointed t (fails e) = ⊥
Pointed t panics = ⊥

abbrev HasKey : String → DataPoint → Type 0
HasKey key p = p.tag_id ≡ key

abbrev pub Keyed : Points → Type 0
Keyed = All (λ e. HasKey e.0 e.1)

-- A map whose points are under their keys, or an error.
abbrev pub Stored : Outcome Points → Type 0
Stored (done m) = Keyed m
Stored (fails e) = Unit
Stored panics = ⊥

abbrev StoredAfter : S7Client × Outcome Points → Type 0
StoredAfter r = Stored r.1

module _ (plc : Plc) (fl : Floats) (env : Surroundings) where
  pub error_point-tag :
      (c : S7Client) (t : Tag) (e : ClientError) → (error_point plc fl env c t e).1.tag_id ≡ t.id
  unfolding error_point create_error_data_point acquire_data_point
  error_point-tag c t e = refl

  pub point_of-Pointed :
      (c : S7Client) (t : Tag) (r : Result Value)
      → NoPanic r
      → Pointed t (point_of plc fl env c t r)
  unfolding point_of
  point_of-Pointed c t (ok v) h = data_point-tag plc fl env c t v
  point_of-Pointed c t (err e) h = error_point-tag c t _
  point_of-Pointed c t panic h = h

  range_tag-Pointed :
      (a : ItemAnswer) (t : S7TagInRange) (c : S7Client)
      → Pointed t.tag (range_tag plc fl env a t c)
  unfolding range_tag cut_out
  range_tag-Pointed (item_error text) t c = error_point-tag c t.tag _
  range_tag-Pointed (item_data xs) t c =
      either_branch (Pointed t.tag) (ltb (length xs) (t.offset + t.byte_count))
        (λ _. error_point-tag c t.tag _)
        (λ _.
          point_of-Pointed c t.tag _
            (parse_value-NoPanic (take t.byte_count (drop t.offset xs)) t.tag t.bit_offset))

  store_tag-Stored :
      (t : Tag) (m : Points) (c : S7Client) (o : Outcome (S7Client × DataPoint))
      (next : S7Client → Points → S7Client × Outcome Points)
      → ((c' : S7Client) (m' : Points) → Keyed m' → StoredAfter (next c' m'))
      → Pointed t o
      → Keyed m
      → StoredAfter (store_tag plc fl env t.id m c o next)
  unfolding store_tag
  store_tag-Stored t m c (done (c', p)) next n h k = n c' _ (All-insert HasKey t.id p m h k)
  store_tag-Stored t m c (fails e) next n h k = absurd h
  store_tag-Stored t m c panics next n h k = h

  range_tags-Stored :
      (a : ItemAnswer) (ts : List S7TagInRange) (c : S7Client) (m : Points)
      → Keyed m
      → StoredAfter (range_tags plc fl env a ts c m)
  unfolding range_tags
  range_tags-Stored a [] c m k = k
  range_tags-Stored a (t ∷ ts) c m k =
      store_tag-Stored t.tag m c (range_tag plc fl env a t c) (range_tags plc fl env a ts)
        (λ c' m' k'. range_tags-Stored a ts c' m' k') (range_tag-Pointed a t c) k

  and_then-Stored :
      (r : S7Client × Outcome Points) (next : S7Client → Points → S7Client × Outcome Points)
      → ((c' : S7Client) (m' : Points) → Keyed m' → StoredAfter (next c' m'))
      → StoredAfter r
      → StoredAfter (and_then plc fl env r next)
  unfolding and_then
  and_then-Stored (c, done m) next n h = n c m h
  and_then-Stored (c, fails e) next n h = tt
  and_then-Stored (c, panics) next n h = h

  all_ranges-Stored :
      (answers : ℕ → ItemAnswer) (i : ℕ) (rs : List S7ByteRange) (c : S7Client) (m : Points)
      → Keyed m
      → StoredAfter (all_ranges plc fl env answers i rs c m)
  unfolding all_ranges
  all_ranges-Stored answers i [] c m k = k
  all_ranges-Stored answers i (r ∷ rs) c m k =
      and_then-Stored (range_tags plc fl env (answers i) r.tags c m)
        (all_ranges plc fl env answers (i + 1) rs)
        (λ c' m' k'. all_ranges-Stored answers (i + 1) rs c' m' k')
        (range_tags-Stored (answers i) r.tags c m k)

  on_read-Stored :
      (rs : List S7ByteRange) (c : S7Client) (m : Points) (r : IoError ⊎ (ℕ → ItemAnswer))
      → Keyed m
      → StoredAfter (on_read plc fl env rs c m r)
  unfolding on_read
  on_read-Stored rs c m (inl e) k = tt
  on_read-Stored rs c m (inr answers) k = all_ranges-Stored answers 0 rs c m k

  abbrev pub StoredAtLast : plc.World × S7Client × Outcome Points → Type 0
  StoredAtLast r = Stored r.2

  pub read_contiguous_ranges-Stored :
      (rs : List S7ByteRange) (w : plc.World) (c : S7Client) (m : Points)
      → Keyed m
      → StoredAtLast (read_contiguous_ranges plc fl env rs w c m)
  unfolding read_contiguous_ranges
  read_contiguous_ranges-Stored rs w c m k =
      either_branch StoredAtLast (all_known rs)
        (λ _.
          either_branch StoredAtLast c.has_client
            (λ _. on_read-Stored rs c m (plc.ag_read_multi (map range_item rs) w).1 k) (λ _. tt))
        (λ _. tt)
