-- ===== src/S7/Batch/Ranges.antt =====
-- The tags and the sizes of the ranges of internal/adapter/s7/batch.go.
use mathlib.Core.List.{Perm, append_assoc, append-nil, perm_middle, map-append}
use protocol_gateway.Prelude.{
  ℕ, ◌+◌, ◌-◌, ◌≤◌, ◌≡◌, ◌↔◌, refl, sym, ap, ◌∙◌, true, ◌&&◌, ◌==◌, eq_iff, List, [], ◌∷◌, ◌++◌,
  map, All, All-append, either_branch, arith,
}
use protocol_gateway.Prelude.Flat.{flat, perm-flat}
use protocol_gateway.Prelude.Sorting.{
  sort_by, perm-sort_by, All-sort_by, IsAscendingBy, sort_by-IsAscendingBy,
}
use protocol_gateway.Domain.Tag.{S7Area}
use protocol_gateway.S7.Batch.{
  S7BatchConfig, S7TagInRange, S7ByteRange, S7ParsedTag, S7GroupKey, same_area, add_to_group,
  add_all, begin, extend, merges, merge, by_offset, merge_sorted, group_ranges,
  build_s7_contiguous_ranges,
}
use mathlib.Core.List.Perm

-- The tag as it was parsed, from its place in a range.
abbrev pub restore : S7ByteRange → S7TagInRange → S7ParsedTag
restore r t = record {
  tag = t.tag;
  area = r.area;
  db_number = r.db_number;
  offset = r.start_offset + t.offset;
  bit_offset = t.bit_offset;
  byte_count = t.byte_count;
}

abbrev pub restored : List S7ByteRange → List S7ParsedTag
restored [] = []
restored (r ∷ rs) = map (restore r) r.tags ++ restored rs

-- A tag of the group with this key.
abbrev Keyed : S7GroupKey → S7ParsedTag → Type 0
Keyed k t = (t.area ≡ k.area) × (t.db_number ≡ k.db_number)

abbrev From : ℕ → S7ParsedTag → Type 0
From start t = start ≤ t.offset

restored-append : (rs qs : List S7ByteRange) → restored (rs ++ qs) ≡ restored rs ++ restored qs
restored-append [] qs = refl
restored-append (r ∷ rs) qs =
    rw (restored-append rs qs)
      (sym (append_assoc (map (restore r) r.tags) (restored rs) (restored qs)))

-- A tag is restored if its range starts its offset before it.
restore-placed :
    (r : S7ByteRange) (k : S7GroupKey) (t : S7ParsedTag) (o : ℕ)
    → r.area ≡ k.area
    → r.db_number ≡ k.db_number
    → Keyed k t
    → r.start_offset + o ≡ t.offset
    → restore r
        (record { tag = t.tag; offset = o; bit_offset = t.bit_offset; byte_count = t.byte_count })
      ≡ t
restore-placed r k t o ea ed (ka, kd) place = rw (ea, ed, place, ← ka, ← kd) refl

restore-extend :
    (k : S7GroupKey) (r : S7ByteRange) (t : S7ParsedTag)
    → r.area ≡ k.area
    → r.db_number ≡ k.db_number
    → Keyed k t
    → From r.start_offset t
    → map (restore r) (extend r t).tags ≡ map (restore r) r.tags ++ t ∷ []
restore-extend k r t ea ed kt h =
    map-append (restore r) r.tags _
    ∙ ap (λ u. map (restore r) r.tags ++ u ∷ [])
        (restore-placed r k t (t.offset - r.start_offset) ea ed kt (omega (arith, h)))

restored-merge :
    (c : S7BatchConfig) (k : S7GroupKey) (r : S7ByteRange) (ts : List S7ParsedTag)
    → r.area ≡ k.area
    → r.db_number ≡ k.db_number
    → All (Keyed k) ts
    → All (From r.start_offset) ts
    → IsAscendingBy (λ t. t.offset) ts
    → restored (merge c k r ts) ≡ map (restore r) r.tags ++ ts
unfolding merge
restored-merge c k r [] ea ed ks hs a = refl
restored-merge c k r (t ∷ ts) ea ed (kt, ks) (h, hs) (at_least, a) =
    either_branch (λ (rs : List S7ByteRange). restored rs ≡ map (restore r) r.tags ++ t ∷ ts)
      (merges c r t)
      (λ e.
        restored-merge c k (extend r t) ts ea ed ks hs a
        ∙ rw (restore-extend k r t ea ed kt h) (append_assoc (map (restore r) r.tags) (t ∷ []) ts))
      (λ e.
        ap (λ ps. map (restore r) r.tags ++ ps)
          (restored-merge c k (begin k t) ts refl refl ks at_least a
            ∙ ap (λ u. u ∷ ts) (restore-placed (begin k t) k t 0 refl refl kt (omega arith))))

restored-merge_sorted :
    (c : S7BatchConfig) (k : S7GroupKey) (ts : List S7ParsedTag)
    → All (Keyed k) ts
    → IsAscendingBy (λ t. t.offset) ts
    → restored (merge_sorted c k ts) ≡ ts
unfolding merge_sorted
restored-merge_sorted c k [] ks a = refl
restored-merge_sorted c k (t ∷ ts) (kt, ks) (h, a) =
    restored-merge c k (begin k t) ts refl refl ks h a
    ∙ ap (λ u. u ∷ ts) (restore-placed (begin k t) k t 0 refl refl kt (omega arith))

restored-group_ranges :
    (c : S7BatchConfig) (k : S7GroupKey) (ps : List S7ParsedTag)
    → All (Keyed k) ps
    → Perm (restored (group_ranges c (k, ps))) ps
unfolding group_ranges
restored-group_ranges c k ps h =
    rw
      (restored-merge_sorted c k (sort_by by_offset ps) (All-sort_by by_offset (Keyed k) ps h)
        (sort_by-IsAscendingBy (λ t. t.offset) ps))
      (perm-sort_by by_offset ps)

same_area_iff : (a b : S7Area) → (same_area a b ≡ true) ↔ (a ≡ b)
unfolding same_area
same_area_iff a b = grind (arith, eq_iff)

-- A group with the key that its tags have.
abbrev KeyedGroup : S7GroupKey × List S7ParsedTag → Type 0
KeyedGroup g = All (Keyed g.0) g.1

add_to_group-Keyed :
    (p : S7ParsedTag) (gs : List (S7GroupKey × List S7ParsedTag))
    → All KeyedGroup gs
    → All KeyedGroup (add_to_group p gs)
unfolding add_to_group
add_to_group-Keyed p [] h = (((refl, refl), tt), tt)
add_to_group-Keyed p ((k, ps) ∷ gs) (h, hs) =
    either_branch (All KeyedGroup) (same_area k.area p.area && k.db_number == p.db_number)
      (λ e. (
        All-append (Keyed k) ps (p ∷ []) h
            ((ground (arith, e, same_area_iff k.area p.area), ground (arith, e)), tt),
        hs,
      ))
      (λ e. (h, add_to_group-Keyed p gs hs))

add_all-Keyed :
    (ps : List S7ParsedTag) (gs : List (S7GroupKey × List S7ParsedTag))
    → All KeyedGroup gs
    → All KeyedGroup (add_all ps gs)
unfolding add_all
add_all-Keyed [] gs h = h
add_all-Keyed (p ∷ ps) gs h = add_all-Keyed ps (add_to_group p gs) (add_to_group-Keyed p gs h)

abbrev members : List (S7GroupKey × List S7ParsedTag) → List S7ParsedTag
members gs = flat (map (λ g. g.1) gs)

perm-add_to_group :
    (p : S7ParsedTag) (gs : List (S7GroupKey × List S7ParsedTag))
    → Perm (members (add_to_group p gs)) (p ∷ members gs)
unfolding add_to_group
perm-add_to_group p [] = Perm.refl _
perm-add_to_group p ((k, ps) ∷ gs) =
    either_branch
      (λ (hs : List (S7GroupKey × List S7ParsedTag)). Perm (members hs) (p ∷ (ps ++ members gs)))
      (same_area k.area p.area && k.db_number == p.db_number)
      (λ e. rw (append_assoc ps (p ∷ []) (members gs)) (perm_middle ps (members gs)))
      (λ e. Perm.trans (Perm.append_left ps (perm-add_to_group p gs)) (perm_middle ps (members gs)))

perm-add_all :
    (ps : List S7ParsedTag) (gs : List (S7GroupKey × List S7ParsedTag))
    → Perm (members (add_all ps gs)) (ps ++ members gs)
unfolding add_all
perm-add_all [] gs = Perm.refl _
perm-add_all (p ∷ ps) gs =
    Perm.trans (perm-add_all ps (add_to_group p gs))
      (Perm.trans (Perm.append_left ps (perm-add_to_group p gs)) (perm_middle ps (members gs)))

-- The groups hold the given tags, in whatever order they are walked.
pub perm-groups :
    (order : List (S7GroupKey × List S7ParsedTag) → List (S7GroupKey × List S7ParsedTag))
    (ps : List S7ParsedTag)
    → ((gs : List (S7GroupKey × List S7ParsedTag)) → Perm (order gs) gs)
    → Perm (flat (map (λ g. g.1) (order (add_all ps [])))) ps
perm-groups order ps same =
    Perm.trans (perm-flat _ _ (Perm.map (λ (g : S7GroupKey × List S7ParsedTag). g.1) (same _)))
      (rw (append-nil ps) at (perm-add_all ps []))

restored-flat :
    (c : S7BatchConfig) (gs : List (S7GroupKey × List S7ParsedTag))
    → restored (flat (map (group_ranges c) gs)) ≡ flat (map (λ g. restored (group_ranges c g)) gs)
restored-flat c [] = refl
restored-flat c (g ∷ gs) =
    restored-append (group_ranges c g) (flat (map (group_ranges c) gs))
    ∙ ap (λ ps. restored (group_ranges c g) ++ ps) (restored-flat c gs)

restored-groups :
    (c : S7BatchConfig) (gs : List (S7GroupKey × List S7ParsedTag))
    → All KeyedGroup gs
    → Perm (flat (map (λ g. restored (group_ranges c g)) gs)) (members gs)
restored-groups c [] h = Perm.refl _
restored-groups c ((k, ps) ∷ gs) (h, hs) =
    Perm.append (restored-group_ranges c k ps h) (restored-groups c gs hs)

-- Each tag has its place in just one of the ranges, from which its area, its data block and its
-- offset come back: restored from the ranges, the tags are the parsed ones, each as often as it was
-- given. The map of the groups is walked in any order that neither loses nor repeats a group.
pub restored-build_s7_contiguous_ranges :
    (order : List (S7GroupKey × List S7ParsedTag) → List (S7GroupKey × List S7ParsedTag))
    (ps : List S7ParsedTag) (c : S7BatchConfig)
    → ((gs : List (S7GroupKey × List S7ParsedTag)) → Perm (order gs) gs)
    → Perm (restored (build_s7_contiguous_ranges order ps c)) ps
unfolding build_s7_contiguous_ranges
restored-build_s7_contiguous_ranges order ps c same =
    let gs = add_all ps [] in
    rw (restored-flat c (order gs)) (
      Perm.trans
        (perm-flat _ _
          (Perm.map (λ (g : S7GroupKey × List S7ParsedTag). restored (group_ranges c g)) (same gs)))
        (Perm.trans (restored-groups c gs (add_all-Keyed ps [] tt))
          (rw (append-nil ps) at (perm-add_all ps []))))
