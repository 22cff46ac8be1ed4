-- ===== src/S7/Batch.antt =====
-- internal/adapter/s7/batch.go. Offsets and numbers of bytes are not negative, as addresses are parsed,
-- and below 2 ^ 63; what is computed of them is an int, which wraps.
pub mod Ranges
pub mod Covering
use protocol_gateway.Prelude.{
  ℕ, ◌+◌, ◌-◌, Bool, true, false, ◌&&◌, ◌==◌, String, str_eq, List, [], ◌∷◌, ◌++◌, map, length, ltb,
  leb, if◌then◌else◌,
}
use protocol_gateway.Prelude.Int.{int_add, int_sub, int_leb, int_ltb}
use protocol_gateway.Prelude.Flat.{flat}
use protocol_gateway.Prelude.Sorting.{sort_by}
use protocol_gateway.Domain.Tag.{Tag, S7Area}

pub record S7BatchConfig : Type 0 where
  pub max_bytes_per_range : ℕ
  pub max_gap_bytes : ℕ

abbrev pub default_s7_batch_config : S7BatchConfig
default_s7_batch_config = record { max_bytes_per_range = 1024; max_gap_bytes = 32 }

-- A tag in a range; the offset counts from the start of the range.
pub record S7TagInRange : Type 0 where
  pub tag : Tag
  pub offset : ℕ
  pub bit_offset : ℕ
  pub byte_count : ℕ

pub record S7ByteRange : Type 0 where
  pub area : S7Area
  pub db_number : ℕ
  pub start_offset : ℕ
  pub total_bytes : ℕ
  pub tags : List S7TagInRange

pub record S7ParsedTag : Type 0 where
  pub tag : Tag
  pub area : S7Area
  pub db_number : ℕ
  pub offset : ℕ
  pub bit_offset : ℕ
  pub byte_count : ℕ

pub record S7GroupKey : Type 0 where
  pub area : S7Area
  pub db_number : ℕ

unfoldable pub same_area : S7Area → S7Area → Bool
same_area S7Area.db S7Area.db = true
same_area S7Area.merker S7Area.merker = true
same_area S7Area.input S7Area.input = true
same_area S7Area.output S7Area.output = true
same_area S7Area.timer S7Area.timer = true
same_area S7Area.counter S7Area.counter = true
same_area (S7Area.other s) (S7Area.other r) = str_eq s r
same_area _ _ = false

-- groups[key] = append(groups[key], p)
add_to_group :
    S7ParsedTag → List (S7GroupKey × List S7ParsedTag) → List (S7GroupKey × List S7ParsedTag)
unfolding same_area
add_to_group p [] = (record { area = p.area; db_number = p.db_number }, p ∷ []) ∷ []
add_to_group p ((k, ps) ∷ gs) =
    if same_area k.area p.area && k.db_number == p.db_number
    then (k, ps ++ p ∷ []) ∷ gs
    else (k, ps) ∷ add_to_group p gs

pub add_all :
    List S7ParsedTag → List (S7GroupKey × List S7ParsedTag) → List (S7GroupKey × List S7ParsedTag)
unfolding add_to_group
add_all [] gs = gs
add_all (p ∷ ps) gs = add_all ps (add_to_group p gs)

-- A range of one tag.
abbrev begin : S7GroupKey → S7ParsedTag → S7ByteRange
begin k t = record {
  area = k.area;
  db_number = k.db_number;
  start_offset = t.offset;
  total_bytes = t.byte_count;
  tags =
      (record { tag = t.tag; offset = 0; bit_offset = t.bit_offset; byte_count = t.byte_count })
      ∷ [];
}

-- The bytes of the range with this tag.
abbrev new_total : S7ByteRange → S7ParsedTag → ℕ
new_total r t =
    let grown = int_sub (int_add t.offset t.byte_count) r.start_offset in
    if int_ltb grown r.total_bytes then r.total_bytes else grown

abbrev merges : S7BatchConfig → S7ByteRange → S7ParsedTag → Bool
merges c r t =
    int_leb (int_sub t.offset (int_add r.start_offset r.total_bytes)) c.max_gap_bytes
    && int_leb (new_total r t) c.max_bytes_per_range

-- The tags are sorted, so that the offset in the range does not wrap.
abbrev extend : S7ByteRange → S7ParsedTag → S7ByteRange
extend r t = record r {
  total_bytes =
      if int_ltb (int_add r.start_offset r.total_bytes) (int_add t.offset t.byte_count)
      then int_sub (int_add t.offset t.byte_count) r.start_offset
      else r.total_bytes;
  tags =
      r.tags
      ++ (record {
        tag = t.tag;
        offset = t.offset - r.start_offset;
        bit_offset = t.bit_offset;
        byte_count = t.byte_count;
      })
        ∷ [];
}

-- The loop over the sorted tags of a group.
merge : S7BatchConfig → S7GroupKey → S7ByteRange → List S7ParsedTag → List S7ByteRange
merge c k current [] = current ∷ []
merge c k current (t ∷ ts) =
    let joined = merge c k (extend current t) ts in
    let parted = current ∷ merge c k (begin k t) ts in if merges c current t then joined else parted

abbrev by_offset : S7ParsedTag → S7ParsedTag → Bool
by_offset a b = ltb a.offset b.offset

merge_sorted : S7BatchConfig → S7GroupKey → List S7ParsedTag → List S7ByteRange
unfolding merge
merge_sorted c k [] = []
merge_sorted c k (t ∷ ts) = merge c k (begin k t) ts

group_ranges : S7BatchConfig → S7GroupKey × List S7ParsedTag → List S7ByteRange
unfolding merge_sorted
group_ranges c (k, ps) = merge_sorted c k (sort_by by_offset ps)

-- buildS7ContiguousRanges; `order` is the order in which Go walks the map of the groups.
unfoldable pub build_s7_contiguous_ranges :
    (List (S7GroupKey × List S7ParsedTag) → List (S7GroupKey × List S7ParsedTag))
    → List S7ParsedTag
    → S7BatchConfig
    → List S7ByteRange
unfolding group_ranges add_all
build_s7_contiguous_ranges order ps c = flat (map (group_ranges c) (order (add_all ps [])))
