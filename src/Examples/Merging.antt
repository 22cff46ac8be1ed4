-- ===== src/Examples/Merging.antt =====
-- Three tags of a data block and one flag, merged into byte ranges.
use protocol_gateway.Prelude.{length, ◌^◌, ◌-◌, ℕ, List, [], ◌∷◌, ◌≡◌, refl, map, All, arith}
use mathlib.Core.List.{Perm}
use protocol_gateway.Examples.Devices.{level, flow, alarm}
use protocol_gateway.Domain.Tag.{S7Area}
use protocol_gateway.S7.Batch.{
  S7ParsedTag, S7ByteRange, default_s7_batch_config, build_s7_contiguous_ranges,
}
use protocol_gateway.Prelude.Int.{int_leb, int_sub, int_add, int_ltb}
use protocol_gateway.S7.Batch.Ranges.{restored, restored-build_s7_contiguous_ranges}
use protocol_gateway.S7.Batch.Covering.{CoversItsTags, build_s7_contiguous_ranges-CoversItsTags}
use mathlib.Core.List.Perm

abbrev real : S7ParsedTag
real = record {
  tag = level;
  area = S7Area.db;
  db_number = 1;
  offset = 40;
  bit_offset = 0;
  byte_count = 4;
}

-- Two others of the block, one near it and one far off.
abbrev near : S7ParsedTag
near = record {
  tag = flow;
  area = S7Area.db;
  db_number = 1;
  offset = 8;
  bit_offset = 0;
  byte_count = 2;
}

abbrev far : S7ParsedTag
far = record {
  tag = alarm;
  area = S7Area.db;
  db_number = 1;
  offset = 900;
  bit_offset = 3;
  byte_count = 1;
}

abbrev flag : S7ParsedTag
flag = record {
  tag = alarm;
  area = S7Area.merker;
  db_number = 0;
  offset = 41;
  bit_offset = 1;
  byte_count = 1;
}

abbrev addressed : List S7ParsedTag
addressed = real ∷ flag ∷ far ∷ near ∷ []

abbrev merged : List S7ByteRange
merged = build_s7_contiguous_ranges (λ gs. gs) addressed default_s7_batch_config

starts :
    map {B = ℕ × ℕ} (λ r. (r.start_offset, r.total_bytes)) merged
    ≡ (8, 36) ∷ (900, 1) ∷ (41, 1) ∷ []
unfolding build_s7_contiguous_ranges int_leb int_sub int_add int_ltb
starts = refl

-- The end of the second tag wraps: the tags are merged, and the bytes of the second one are not read.
past_the_end :
    map {B = ℕ × ℕ}
      (λ r. (r.total_bytes, length r.tags))
      (build_s7_contiguous_ranges
        (λ gs. gs)
        (record real { offset = 2 ^ 63 - 10; byte_count = 8 }
          ∷ record real { offset = 2 ^ 63 - 1; byte_count = 8 }
          ∷ [])
        default_s7_batch_config)
    ≡ (8, 2) ∷ []
unfolding build_s7_contiguous_ranges int_leb int_sub int_add int_ltb
past_the_end = refl

restored-build_s7_contiguous_ranges_example : Perm (restored merged) addressed
restored-build_s7_contiguous_ranges_example =
    restored-build_s7_contiguous_ranges (λ gs. gs) addressed default_s7_batch_config
      (λ gs. Perm.refl gs)

build_s7_contiguous_ranges-CoversItsTags_example :
    All (CoversItsTags default_s7_batch_config) merged
build_s7_contiguous_ranges-CoversItsTags_example =
    build_s7_contiguous_ranges-CoversItsTags (λ gs. gs) addressed default_s7_batch_config
      (λ gs. Perm.refl gs) (omega arith, (omega arith, (omega arith, (omega arith, tt))))
      (omega arith)
