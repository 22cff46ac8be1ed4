-- ===== src/S7/Batch/Covering.antt =====
-- The bytes of the ranges of internal/adapter/s7/batch.go.
use native.Mathlib.Bridge.{le_prop}
use protocol_gateway.Prelude.{
  ℕ, ◌+◌, ◌≤◌, ◌≡◌, ◌⊎◌, refl, List, [], ◌∷◌, map, length, All, All-map_impl, All-append,
  All-append_inv, ◌<◌, ◌-◌, ltb, if◌then◌else◌, either_branch, inl, inr, arith, true, ◌^◌,
}
use protocol_gateway.Prelude.Flat.{flat, All-perm}
use protocol_gateway.Prelude.Int.{
  int_add, int_sub, int_leb, int_add-small, int_sub-small, int_leb-small, int_ltb-small,
}
use mathlib.Core.List.{Perm}
use protocol_gateway.S7.Batch.Ranges.{perm-groups}
use protocol_gateway.Prelude.Sorting.{sort_by, IsAscendingBy, sort_by-IsAscendingBy, All-sort_by}
use protocol_gateway.S7.Batch.{
  S7BatchConfig, S7TagInRange, S7ByteRange, S7ParsedTag, S7GroupKey, begin, extend, merges,
  new_total, merge, by_offset, merge_sorted, group_ranges, build_s7_contiguous_ranges, add_all,
}
use mathlib.Core.List.Perm

-- A tag within the bytes that are read.
abbrev Inside : ℕ → S7TagInRange → Type 0
Inside total t = t.offset + t.byte_count ≤ total

pub record CoversItsTags (c : S7BatchConfig) (r : S7ByteRange) : Type 0 where
  pub inside : All (Inside r.total_bytes) r.tags
  pub size : (r.total_bytes ≤ c.max_bytes_per_range) ⊎ (length r.tags ≡ 1)

begin-CoversItsTags :
    (c : S7BatchConfig) (k : S7GroupKey) (t : S7ParsedTag) → CoversItsTags c (begin k t)
begin-CoversItsTags c k t = record { inside = (omega arith, tt); size = inr refl }

-- A tag, and a range, that end where no int wraps.
abbrev pub EndsInInt : S7ParsedTag → Type 0
EndsInInt t = t.offset + t.byte_count < 2 ^ 63

abbrev RangeEndsInInt : S7ByteRange → Type 0
RangeEndsInInt r = r.start_offset + r.total_bytes < 2 ^ 63

module _ (r : S7ByteRange) (t : S7ParsedTag) (h : r.start_offset ≤ t.offset)
    (in_range : RangeEndsInInt r) (in_tag : EndsInInt t) where
  grown_lem :
      int_sub (int_add t.offset t.byte_count) r.start_offset
      ≡ t.offset + t.byte_count - r.start_offset
  grown_lem =
      rw (int_add-small t.offset t.byte_count in_tag)
        (int_sub-small (t.offset + t.byte_count) r.start_offset (omega (arith, h)) in_tag)

  total_bytes-extend : (extend r t).total_bytes ≡ (
      if ltb (r.start_offset + r.total_bytes) (t.offset + t.byte_count)
      then t.offset + t.byte_count - r.start_offset
      else r.total_bytes)
  total_bytes-extend =
      rw
        (
          grown_lem,
          int_add-small t.offset t.byte_count in_tag,
          int_add-small r.start_offset r.total_bytes in_range,
          int_ltb-small (r.start_offset + r.total_bytes) (t.offset + t.byte_count) in_range in_tag,
        )
        refl

  new_total_lem : new_total r t ≡ (
      let grown = t.offset + t.byte_count - r.start_offset in
      if ltb grown r.total_bytes then r.total_bytes else grown)
  new_total_lem =
      rw
        (
          grown_lem,
          int_ltb-small (t.offset + t.byte_count - r.start_offset) r.total_bytes
              (omega (arith, in_tag)) (omega (arith, in_range)),
        )
        refl

  extend-RangeEndsInInt : RangeEndsInInt (extend r t)
  extend-RangeEndsInInt = rw total_bytes-extend (ground (arith, h, in_range, in_tag))

  -- A range that a tag is merged into has no more bytes than the configured number.
  extend-size :
      (c : S7BatchConfig)
      → c.max_bytes_per_range < 2 ^ 63
      → merges c r t ≡ true
      → (extend r t).total_bytes ≤ c.max_bytes_per_range
  extend-size c small m =
      let within : int_leb (new_total r t) c.max_bytes_per_range ≡ true = ground (arith, m) in
      let fits : new_total r t < 2 ^ 63 = rw new_total_lem (ground (arith, in_range, in_tag)) in
      let le =
        rw (int_leb-small (new_total r t) c.max_bytes_per_range fits small, new_total_lem) at
          within in
      rw total_bytes-extend (ground (arith, le, h))

extend-CoversItsTags :
    (c : S7BatchConfig) (r : S7ByteRange) (t : S7ParsedTag)
    → c.max_bytes_per_range < 2 ^ 63
    → r.start_offset ≤ t.offset
    → RangeEndsInInt r
    → EndsInInt t
    → merges c r t ≡ true
    → CoversItsTags c r
    → CoversItsTags c (extend r t)
extend-CoversItsTags c r t small h ir it m v =
    let grows : r.total_bytes ≤ (extend r t).total_bytes =
      rw (total_bytes-extend r t h ir it) (ground (arith, h)) in
    let holds : t.offset - r.start_offset + t.byte_count ≤ (extend r t).total_bytes =
      rw (total_bytes-extend r t h ir it) (ground (arith, h)) in
    record {
      inside =
          All-append (Inside (extend r t).total_bytes) r.tags _
            (All-map_impl _ _ r.tags (λ u i. omega (arith, i, grows)) v.inside) (holds, tt);
      size = inl (extend-size r t h ir it c small m);
    }

module _ (c : S7BatchConfig) (small : c.max_bytes_per_range < 2 ^ 63) where
  merge-CoversItsTags :
      (k : S7GroupKey) (r : S7ByteRange) (ts : List S7ParsedTag)
      → All (λ t. r.start_offset ≤ t.offset) ts
      → IsAscendingBy (λ t. t.offset) ts
      → RangeEndsInInt r
      → All EndsInInt ts
      → CoversItsTags c r
      → All (CoversItsTags c) (merge c k r ts)
  unfolding merge
  merge-CoversItsTags k r [] hs a ir is v = (v, tt)
  merge-CoversItsTags k r (t ∷ ts) (h, hs) (at_least, a) ir (it, is) v =
      either_branch (All (CoversItsTags c)) (merges c r t)
        (λ e.
          merge-CoversItsTags k (extend r t) ts hs a (extend-RangeEndsInInt r t h ir it) is
            (extend-CoversItsTags c r t small h ir it e v))
        (λ e.
          (v, merge-CoversItsTags k (begin k t) ts at_least a it is (begin-CoversItsTags c k t)))

  merge_sorted-CoversItsTags :
      (k : S7GroupKey) (ts : List S7ParsedTag)
      → IsAscendingBy (λ t. t.offset) ts
      → All EndsInInt ts
      → All (CoversItsTags c) (merge_sorted c k ts)
  unfolding merge_sorted
  merge_sorted-CoversItsTags k [] a is = tt
  merge_sorted-CoversItsTags k (t ∷ ts) (h, a) (it, is) =
      merge-CoversItsTags k (begin k t) ts h a it is (begin-CoversItsTags c k t)

  groups-CoversItsTags :
      (gs : List (S7GroupKey × List S7ParsedTag))
      → All EndsInInt (flat (map (λ g. g.1) gs))
      → All (CoversItsTags c) (flat (map (group_ranges c) gs))
  unfolding group_ranges
  groups-CoversItsTags [] is = tt
  groups-CoversItsTags ((k, ps) ∷ gs) is =
      let (mine, others) = All-append_inv EndsInInt ps (flat (map (λ g. g.1) gs)) is in
      All-append (CoversItsTags c) (group_ranges c (k, ps)) (flat (map (group_ranges c) gs))
        (merge_sorted-CoversItsTags k (sort_by by_offset ps)
          (sort_by-IsAscendingBy (λ t. t.offset) ps) (All-sort_by by_offset EndsInInt ps mine))
        (groups-CoversItsTags gs others)

-- If each tag ends below 2 ^ 63, and the configured number of bytes of a range is below it too, each
-- range reads all the bytes of each of its tags, and no more bytes than the configured number, unless
-- the range is for a single tag. The map of the groups is walked in any order that neither loses nor
-- repeats a group.
pub build_s7_contiguous_ranges-CoversItsTags :
    (order : List (S7GroupKey × List S7ParsedTag) → List (S7GroupKey × List S7ParsedTag))
    (ps : List S7ParsedTag) (c : S7BatchConfig)
    → ((gs : List (S7GroupKey × List S7ParsedTag)) → Perm (order gs) gs)
    → All EndsInInt ps
    → c.max_bytes_per_range < 2 ^ 63
    → All (CoversItsTags c) (build_s7_contiguous_ranges order ps c)
unfolding build_s7_contiguous_ranges
build_s7_contiguous_ranges-CoversItsTags order ps c same is small =
    groups-CoversItsTags c small (order (add_all ps []))
      (All-perm EndsInInt (λ t. le_prop) (Perm.symm (perm-groups order ps same)) is)
