-- ===== src/Modbus/Batch/Ranges.antt =====
-- The tags and the bounds of the ranges that buildContiguousRanges and buildCoilRanges build.
use mathlib.Core.List.{Perm, append_assoc}
use protocol_gateway.Prelude.{
  ℕ, ◌+◌, ◌≤◌, ◌<◌, ◌≡◌, refl, ap, ◌∙◌, true, false, List, [], ◌∷◌, ◌++◌, ltb, All, All-map_impl,
  All-append, arith, inl, inr, Bool-cases,
}
use protocol_gateway.Domain.Tag.{Tag}
use protocol_gateway.Modbus.Batch.{
  RegisterRange, BatchConfig, CoilBatchConfig, sift, unwind, sort_from, sort_tags_by_address,
  can_merge, extend, single, merge, build_sorted, build_contiguous_ranges, build_coil_ranges,
  range_tags,
}
use protocol_gateway.Modbus.Batch.Sorting.{
  AtLeast, IsAscending, perm-sort_tags_by_address, sort_tags_by_address-IsAscending,
}

merge_more :
    (g m : ℕ) (r : RegisterRange) (t : Tag) (ts : List Tag)
    → can_merge g m r t ≡ true
    → merge g m r (t ∷ ts) ≡ merge g m (extend r t) ts
unfolding merge
merge_more g m r t ts e = rw (e, merge)

merge_next :
    (g m : ℕ) (r : RegisterRange) (t : Tag) (ts : List Tag)
    → can_merge g m r t ≡ false
    → merge g m r (t ∷ ts) ≡ r ∷ merge g m (single t) ts
unfolding merge
merge_next g m r t ts e = rw (e, merge)

merge_last : (g m : ℕ) (r : RegisterRange) → merge g m r [] ≡ r ∷ []
unfolding merge
merge_last g m r = refl

-- The loop hands on every tag, in order.
range_tags-merge :
    (g m : ℕ) (r : RegisterRange) (ts : List Tag) → range_tags (merge g m r ts) ≡ r.tags ++ ts
unfolding extend single
range_tags-merge g m r [] = rw (merge_last g m r)
range_tags-merge g m r (t ∷ ts) = elim (Bool-cases (can_merge g m r t)) [
  | inl e ↦
      rw (merge_more g m r t ts e)
        (range_tags-merge g m (extend r t) ts ∙ append_assoc r.tags (t ∷ []) ts)
  | inr e ↦ rw (merge_next g m r t ts e) (ap (◌++◌ r.tags) (range_tags-merge g m (single t) ts))
]

range_tags-build_sorted : (g m : ℕ) (ts : List Tag) → range_tags (build_sorted g m ts) ≡ ts
unfolding build_sorted
range_tags-build_sorted g m [] = refl
range_tags-build_sorted g m (t ∷ ts) = range_tags-merge g m (single t) ts

-- The batched register reads cover the tags exactly: the tags of all the ranges are the given
-- tags, each as often as it was given.
-- The ranges built for the registers hold just the given tags, none lost and none twice.
pub perm-build_contiguous_ranges :
    (ts : List Tag) (c : BatchConfig) → Perm (range_tags (build_contiguous_ranges ts c)) ts
unfolding build_contiguous_ranges
perm-build_contiguous_ranges ts c =
    rw (range_tags-build_sorted c.max_gap_size c.max_registers_per_read (sort_tags_by_address ts))
      (perm-sort_tags_by_address ts)

-- The ranges built for the coils hold just the given tags, none lost and none twice.
pub perm-build_coil_ranges :
    (ts : List Tag) (c : CoilBatchConfig) → Perm (range_tags (build_coil_ranges ts c)) ts
unfolding build_coil_ranges
perm-build_coil_ranges ts c =
    rw (range_tags-build_sorted c.max_gap_size c.max_coils_per_read (sort_tags_by_address ts))
      (perm-sort_tags_by_address ts)

-- A tag that takes at least one register, at most `m`, and none beyond the address space.
abbrev pub Fits : ℕ → Tag → Type 0
Fits m t = (1 ≤ t.register_count) × (t.register_count ≤ m) × (t.address + t.register_count ≤ 65536)

abbrev pub Inside : ℕ → ℕ → Tag → Type 0
Inside start end t = (start ≤ t.address) × (t.address + t.register_count ≤ end + 1)

-- A range of at most `m` registers that holds all of its tags.
pub record IsCovering (m : ℕ) (r : RegisterRange) : Type 0 where
  pub ordered : r.start_address ≤ r.end_address
  pub in_space : r.end_address < 65536
  pub bounded : r.end_address + 1 ≤ r.start_address + m
  pub inside : All (Inside r.start_address r.end_address) r.tags

single-IsCovering : (m : ℕ) (t : Tag) → Fits m t → IsCovering m (single t)
unfolding single
single-IsCovering m t f = omega arith

-- A range that grows at its end holds what it held.
Inside-grow :
    (start e e' : ℕ) (ts : List Tag) → e ≤ e' → All (Inside start e) ts → All (Inside start e') ts
Inside-grow start e e' ts h = All-map_impl _ _ ts (λ t p. omega arith)

extend-IsCovering :
    (g m : ℕ) (r : RegisterRange) (t : Tag)
    → m + m + g < 65536
    → Fits m t
    → AtLeast r.start_address t
    → can_merge g m r t ≡ true
    → IsCovering m r
    → IsCovering m (extend r t)
unfolding extend can_merge
extend-IsCovering g m r t room f a h v = record {
  ordered = ground arith;
  in_space = ground arith;
  bounded = ground arith;
  inside =
      All-append _ r.tags _
        (Inside-grow r.start_address r.end_address _ r.tags (ground arith) v.inside) (ground arith);
}

merge-IsCovering :
    (g m : ℕ) (r : RegisterRange) (ts : List Tag)
    → m + m + g < 65536
    → IsCovering m r
    → All (AtLeast r.start_address) ts
    → IsAscending ts
    → All (Fits m) ts
    → All (IsCovering m) (merge g m r ts)
unfolding extend single
merge-IsCovering g m r [] room v a s f = rw (merge_last g m r) (v, tt)
merge-IsCovering g m r (t ∷ ts) room v (a, as') (q, s) (f, fs) =
    elim (Bool-cases (can_merge g m r t)) [
      | inl e ↦ rw (merge_more g m r t ts e) (
          merge-IsCovering g m (extend r t) ts room (extend-IsCovering g m r t room f a e v) as' s
            fs)
      | inr e ↦
          rw (merge_next g m r t ts e)
            (v, merge-IsCovering g m (single t) ts room (single-IsCovering m t f) q s fs)
    ]

-- Sorting keeps what holds of every tag.
module _ {ℓ} (P : Tag → Type ℓ) where
  All-sift : (t : Tag) (us : List Tag) → P t → All P us → All P (sift t us)
  unfolding sift
  All-sift t [] p h = (p, tt)
  All-sift t (u ∷ us) p (q, h) = elim (Bool-cases (ltb t.address u.address)) [
    | inl e ↦ rw e (q, All-sift t us p h)
    | inr e ↦ rw e (p, (q, h))
  ]

  All-unwind : (us out : List Tag) → All P us → All P out → All P (unwind us out)
  unfolding unwind
  All-unwind [] out h k = k
  All-unwind (u ∷ us) out (p, h) k = All-unwind us (u ∷ out) h (p, k)

  All-sort_from : (us ts : List Tag) → All P us → All P ts → All P (sort_from us ts)
  unfolding sort_from
  All-sort_from us [] h k = All-unwind us [] h tt
  All-sort_from us (t ∷ ts) h (p, k) = All-sort_from (sift t us) ts (All-sift t us p h) k

  All-sort_tags_by_address : (ts : List Tag) → All P ts → All P (sort_tags_by_address ts)
  unfolding sort_tags_by_address
  All-sort_tags_by_address ts h = All-sort_from [] ts tt h

build_sorted-IsCovering :
    (g m : ℕ) (ts : List Tag)
    → m + m + g < 65536
    → IsAscending ts
    → All (Fits m) ts
    → All (IsCovering m) (build_sorted g m ts)
unfolding build_sorted single
build_sorted-IsCovering g m [] room s f = tt
build_sorted-IsCovering g m (t ∷ ts) room (q, s) (f, fs) =
    merge-IsCovering g m (single t) ts room (single-IsCovering m t f) q s fs

-- If each tag fits the address space and the configured read size, and two reads and a gap are
-- shorter than the address space, then every range that is built holds its tags, stays in the
-- address space, and is no larger than the configured read size.
pub build_contiguous_ranges-IsCovering :
    (ts : List Tag) (c : BatchConfig)
    → c.max_registers_per_read + c.max_registers_per_read + c.max_gap_size < 65536
    → All (Fits c.max_registers_per_read) ts
    → All (IsCovering c.max_registers_per_read) (build_contiguous_ranges ts c)
unfolding build_contiguous_ranges
build_contiguous_ranges-IsCovering ts c room f =
    build_sorted-IsCovering c.max_gap_size c.max_registers_per_read (sort_tags_by_address ts) room
      (sort_tags_by_address-IsAscending ts) (All-sort_tags_by_address _ ts f)

-- The same of coils and discrete inputs: if each tag fits the address space and the configured read
-- size, and two reads and a gap are shorter than the address space, then every range that is
-- built holds its tags, stays in the address space, and is no larger than the configured size.
pub build_coil_ranges-IsCovering :
    (ts : List Tag) (c : CoilBatchConfig)
    → c.max_coils_per_read + c.max_coils_per_read + c.max_gap_size < 65536
    → All (Fits c.max_coils_per_read) ts
    → All (IsCovering c.max_coils_per_read) (build_coil_ranges ts c)
unfolding build_coil_ranges
build_coil_ranges-IsCovering ts c room f =
    build_sorted-IsCovering c.max_gap_size c.max_coils_per_read (sort_tags_by_address ts) room
      (sort_tags_by_address-IsAscending ts) (All-sort_tags_by_address _ ts f)

-- What holds of every tag holds of the tags of every range.
pub All-build_contiguous_ranges {ℓ} :
    (P : Tag → Type ℓ) (ts : List Tag) (c : BatchConfig)
    → All P ts
    → All P (range_tags (build_contiguous_ranges ts c))
unfolding build_contiguous_ranges
All-build_contiguous_ranges P ts c h =
    rw (range_tags-build_sorted c.max_gap_size c.max_registers_per_read (sort_tags_by_address ts))
      (All-sort_tags_by_address P ts h)
