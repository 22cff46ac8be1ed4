-- ===== src/Modbus/Batch.antt =====
-- Batching of reads (internal/adapter/modbus/client.go): tags are sorted by address and merged
-- into ranges that one request reads. Addresses are uint16 and wrap.
pub mod Sorting
pub mod Ranges
use protocol_gateway.Prelude.{
  ℕ, ◌+◌, ◌-◌, ◌%◌, ◌^◌, Bool, true, false, ◌&&◌, List, [], ◌∷◌, ◌++◌, leb, ltb, if◌then◌else◌,
}
use protocol_gateway.Domain.Tag.{Tag}

pub record RegisterRange : Type 0 where
  pub start_address : ℕ
  pub end_address : ℕ  -- inclusive
  pub tags : List Tag

pub record BatchConfig : Type 0 where
  pub max_registers_per_read : ℕ
  pub max_gap_size : ℕ

abbrev pub default_batch_config : BatchConfig
default_batch_config = record { max_registers_per_read = 100; max_gap_size = 10 }

pub record CoilBatchConfig : Type 0 where
  pub max_coils_per_read : ℕ
  pub max_gap_size : ℕ

abbrev pub default_coil_batch_config : CoilBatchConfig
default_coil_batch_config = record { max_coils_per_read = 1000; max_gap_size = 32 }

-- The inner loop of sortTagsByAddress: `t` moves down past the larger addresses. The sorted part
-- of the slice is held from its end.
sift : Tag → List Tag → List Tag
sift t [] = t ∷ []
sift t (u ∷ us) = if ltb t.address u.address then u ∷ sift t us else t ∷ u ∷ us

-- The slice read from its front again.
unwind : List Tag → List Tag → List Tag
unwind [] out = out
unwind (u ∷ us) out = unwind us (u ∷ out)

-- The outer loop.
sort_from : List Tag → List Tag → List Tag
unfolding sift unwind
sort_from sorted [] = unwind sorted []
sort_from sorted (t ∷ ts) = sort_from (sift t sorted) ts

unfoldable pub sort_tags_by_address : List Tag → List Tag
unfolding sort_from
sort_tags_by_address ts = sort_from [] ts

-- tag.Address + tag.RegisterCount - 1, in uint16.
abbrev pub tag_end : Tag → ℕ
tag_end t = (t.address + t.register_count + 65535) % 65536

-- end - start + 1, in uint16.
abbrev pub range_size : ℕ → ℕ → ℕ
range_size start end = (end + 65536 - start + 1) % 65536

-- The gap is a signed int: address - end - 1 <= max_gap.
can_merge : ℕ → ℕ → RegisterRange → Tag → Bool
can_merge max_gap max_size r t =
    leb t.address (r.end_address + 1 + max_gap)
    && leb (range_size r.start_address (tag_end t)) max_size

extend : RegisterRange → Tag → RegisterRange
extend r t = record r {
  end_address = if ltb r.end_address (tag_end t) then tag_end t else r.end_address;
  tags = r.tags ++ t ∷ [];
}

single : Tag → RegisterRange
single t = record { start_address = t.address; end_address = tag_end t; tags = t ∷ [] }

-- The loop that both builders share.
merge : ℕ → ℕ → RegisterRange → List Tag → List RegisterRange
unfolding can_merge extend single
merge max_gap max_size r [] = r ∷ []
merge max_gap max_size r (t ∷ ts) = elim (can_merge max_gap max_size r t) [
  | true ↦ merge max_gap max_size (extend r t) ts
  | false ↦ r ∷ merge max_gap max_size (single t) ts
]

build_sorted : ℕ → ℕ → List Tag → List RegisterRange
unfolding merge
build_sorted max_gap max_size [] = []
build_sorted max_gap max_size (t ∷ ts) = merge max_gap max_size (single t) ts

unfoldable pub build_contiguous_ranges : List Tag → BatchConfig → List RegisterRange
unfolding build_sorted sort_tags_by_address
build_contiguous_ranges ts c =
    build_sorted c.max_gap_size c.max_registers_per_read (sort_tags_by_address ts)

unfoldable pub build_coil_ranges : List Tag → CoilBatchConfig → List RegisterRange
unfolding build_sorted sort_tags_by_address
build_coil_ranges ts c = build_sorted c.max_gap_size c.max_coils_per_read (sort_tags_by_address ts)

-- The tags of all ranges, in the order in which they are read.
abbrev pub range_tags : List RegisterRange → List Tag
range_tags [] = []
range_tags (r ∷ rs) = r.tags ++ range_tags rs
