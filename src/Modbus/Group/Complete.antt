-- ===== src/Modbus/Group/Complete.antt =====
-- The points that ReadTags (Group) returns, followed through its groups and ranges.
use native.Mathlib.Bridge.{le_prop}
use mathlib.Core.List.{Perm, append_assoc, append-nil, map-append, perm_middle, map}
use protocol_gateway.Modbus.Range.Slices.{
  HasRegisters, tag_ids, point_ids, OnePerTag, read_coil_range-OnePerTag,
  read_register_range-OnePerTag,
}
use protocol_gateway.Modbus.Batch.{
  default_batch_config, default_coil_batch_config, build_contiguous_ranges, build_coil_ranges,
  RegisterRange, range_tags,
}
use protocol_gateway.Domain.Float.{Floats}
use mathlib.Core.Logic.{inl, inr}
use protocol_gateway.Domain.Tag.{RegisterType, Tag}
use protocol_gateway.Modbus.Batch.Ranges.{
  perm-build_coil_ranges, perm-build_contiguous_ranges, All-build_contiguous_ranges,
}
use protocol_gateway.Prelude.{
  All-trivial, ℕ, zero, suc, ◌≡◌, refl, ap, String, List, [], ◌∷◌, ◌++◌, All, All-append_inv,
  Bool-cases,
}
use protocol_gateway.Domain.DataPoint.{DataPoint, acquire_data_point}
use protocol_gateway.Modbus.Errors.{ClientError, Outcome, done, fails, panics}
use protocol_gateway.Modbus.Client.{Client}
use protocol_gateway.Modbus.Range.{create_error_data_point}
use protocol_gateway.Modbus.Group.{
  Reader, error_points, range_points, read_ranges, add_to_group, Device, group_tags_by_type,
  add_all, read_tag_group, same_register, read_coil_group_batched, is_bit_register, read_coil_range,
  read_tags, read_groups, read_register_range,
}
use protocol_gateway.Prelude.Flat.{flat, perm-flat, All-perm}
use mathlib.Core.List.Perm

error_points-ids :
    (c : Client) (e : ClientError) (ts : List Tag) → point_ids (error_points c e ts) ≡ tag_ids ts
unfolding error_points create_error_data_point acquire_data_point
error_points-ids c e [] = refl
error_points-ids c e (t ∷ ts) = ap (◌∷◌ t.id) (error_points-ids c e ts)

-- Points whose ids are a rearrangement of the given ones.
abbrev Answers : List String → Outcome (List DataPoint) → Type 0
Answers ids (done ps) = Perm (point_ids ps) ids
Answers ids (fails e) = Unit
Answers ids panics = ⊥

-- An error is replaced by error points, so that every tag has a point.
range_points_lem :
    (c : Client) (ts : List Tag) (out : Outcome (List DataPoint))
    → Answers (tag_ids ts) out
    → (ps : List DataPoint) × (range_points c ts out ≡ done ps) × Perm (point_ids ps) (tag_ids ts)
range_points_lem c ts (done ps) h = (ps, refl, h)
range_points_lem c ts (fails e) h =
    (error_points c e ts, refl, rw (error_points-ids c e ts) (Perm.refl _))
range_points_lem c ts panics h = absurd h

OnePerTag-Answers :
    (ts : List Tag) (out : Outcome (List DataPoint)) → OnePerTag ts out → Answers (tag_ids ts) out
OnePerTag-Answers ts (done ps) h = rw h (Perm.refl _)
OnePerTag-Answers ts (fails e) h = tt
OnePerTag-Answers ts panics h = h

point_ids-append : (ps qs : List DataPoint) → point_ids (ps ++ qs) ≡ point_ids ps ++ point_ids qs
point_ids-append ps qs = map-append (λ (q : DataPoint). q.tag_id) ps qs

tag_ids-append : (ts us : List Tag) → tag_ids (ts ++ us) ≡ tag_ids ts ++ tag_ids us
tag_ids-append ts us = map-append (λ (t : Tag). t.id) ts us

-- One more batch of points, for the tags `ts`, beside the points that are there.
more :
    (acc ps : List DataPoint) (ts : List Tag) (rest : List String)
    → Perm (point_ids ps) (tag_ids ts)
    → Perm (point_ids (acc ++ ps) ++ rest) (point_ids acc ++ (tag_ids ts ++ rest))
more acc ps ts rest h =
    rw (point_ids-append acc ps, append_assoc (point_ids acc) (point_ids ps) rest)
      (Perm.append_left (point_ids acc) (Perm.append_right rest h))

Answers-trans :
    (ids ids' : List String) (out : Outcome (List DataPoint))
    → Perm ids ids'
    → Answers ids out
    → Answers ids' out
Answers-trans ids ids' (done ps) p h = Perm.trans h p
Answers-trans ids ids' (fails e) p h = tt
Answers-trans ids ids' panics p h = h

read_ranges-Answers :
    (P : Tag → Type 0) (read : Reader) (ended : ClientError) (alive : ℕ) (c : Client)
    (acc : List DataPoint) (rs : List RegisterRange)
    → ((d : Client) (r : RegisterRange) → All P r.tags → OnePerTag r.tags (read d r).1)
    → All P (range_tags rs)
    → Answers (point_ids acc ++ tag_ids (range_tags rs)) (read_ranges read ended alive c acc rs).1
unfolding read_ranges
read_ranges-Answers P read ended alive c acc [] one h =
    rw (append-nil (point_ids acc)) (Perm.refl _)
read_ranges-Answers P read ended zero c acc (r ∷ rs) one h = tt
read_ranges-Answers P read ended (suc alive) c acc (r ∷ rs) one h =
    let (hr, hrs) = All-append_inv P r.tags (range_tags rs) h in
    let c' = (read c r).0 in
    let out = (read c r).1 in
    let (ps, e, k) = range_points_lem c' r.tags out (OnePerTag-Answers r.tags out (one c r hr)) in
    rw (e, tag_ids-append r.tags (range_tags rs))
      (Answers-trans _ _ (read_ranges read ended alive c' (acc ++ ps) rs).1
        (more acc ps r.tags (tag_ids (range_tags rs)) k)
        (read_ranges-Answers P read ended alive c' (acc ++ ps) rs one hrs))

-- The tags of all groups.
group_tags : List (RegisterType × List Tag) → List Tag
group_tags gs = flat (map (λ g. g.1) gs)

perm-add_to_group :
    (t : Tag) (gs : List (RegisterType × List Tag))
    → Perm (group_tags (add_to_group t gs)) (t ∷ group_tags gs)
unfolding add_to_group group_tags
perm-add_to_group t [] = Perm.refl _
perm-add_to_group t ((k, ts) ∷ gs) = elim (Bool-cases (same_register k t.register_type)) [
  | inl e ↦ rw e (rw (append_assoc ts (t ∷ []) (group_tags gs)) (perm_middle ts (group_tags gs)))
  | inr e ↦
      rw e
        (Perm.trans (Perm.append_left ts (perm-add_to_group t gs)) (perm_middle ts (group_tags gs)))
]

perm-add_all :
    (ts : List Tag) (gs : List (RegisterType × List Tag))
    → Perm (group_tags (add_all ts gs)) (ts ++ group_tags gs)
unfolding add_all
perm-add_all [] gs = Perm.refl _
perm-add_all (t ∷ ts) gs =
    Perm.trans (perm-add_all ts (add_to_group t gs))
      (Perm.trans (Perm.append_left ts (perm-add_to_group t gs)) (perm_middle ts (group_tags gs)))

-- Walking the map in another order gives the same tags.
perm-group_tags_by_type :
    (order : List (List Tag) → List (List Tag)) (ts : List Tag)
    → ((gs : List (List Tag)) → Perm (order gs) gs)
    → Perm (flat (group_tags_by_type order ts)) ts
unfolding group_tags_by_type group_tags
perm-group_tags_by_type order ts h =
    Perm.trans (perm-flat _ _ (h (map (λ g. g.1) (add_all ts []))))
      (rw (append-nil ts) at (perm-add_all ts []))

module _ (fl : Floats) (device : Device) (ended : ClientError) where
  read_tag_group-Answers :
      (alive : ℕ) (c : Client) (ts : List Tag)
      → All HasRegisters ts
      → Answers (tag_ids ts) (read_tag_group fl device ended alive c ts).1
  unfolding read_tag_group read_coil_group_batched
  read_tag_group-Answers alive c [] h = Perm.refl _
  read_tag_group-Answers alive c (t ∷ ts) h = elim (Bool-cases (is_bit_register t.register_type)) [
    | inl e ↦ rw e (
        Answers-trans _ _ _
          (Perm.map (λ (u : Tag). u.id) (perm-build_coil_ranges (t ∷ ts) default_coil_batch_config))
          (read_ranges-Answers (λ t. Unit {0}) (read_coil_range fl device t.register_type) ended
            alive c [] (build_coil_ranges (t ∷ ts) default_coil_batch_config)
            (λ d r _. read_coil_range-OnePerTag fl device t.register_type d r) (All-trivial _)))
    | inr e ↦ rw e (
        Answers-trans _ _ _
          (Perm.map (λ (u : Tag). u.id)
            (perm-build_contiguous_ranges (t ∷ ts) default_batch_config))
          (read_ranges-Answers HasRegisters (read_register_range fl device t.register_type) ended
            alive c [] (build_contiguous_ranges (t ∷ ts) default_batch_config)
            (λ d r. read_register_range-OnePerTag fl device t.register_type d r)
            (All-build_contiguous_ranges HasRegisters (t ∷ ts) default_batch_config h)))
  ]

-- The answer of the loop over the groups: always points, for just the tags.
abbrev AllAnswered : List String → Outcome (List DataPoint) → Type 0
AllAnswered ids out = (ps : List DataPoint) × (out ≡ done ps) × Perm (point_ids ps) ids

read_groups-AllAnswered :
    (fl : Floats) (device : Device) (ended : ClientError) (alive : List Tag → ℕ) (c : Client)
    (acc : List DataPoint) (gs : List (List Tag))
    → All HasRegisters (flat gs)
    → AllAnswered
        (point_ids acc ++ tag_ids (flat gs))
        (read_groups fl device ended alive c acc gs).1
unfolding read_groups
read_groups-AllAnswered fl device ended alive c acc [] h =
    (acc, refl, rw (append-nil (point_ids acc)) (Perm.refl _))
read_groups-AllAnswered fl device ended alive c acc (g ∷ gs) h =
    let (hg, hgs) = All-append_inv HasRegisters g (flat gs) h in
    let c' = (read_tag_group fl device ended (alive g) c g).0 in
    let out = (read_tag_group fl device ended (alive g) c g).1 in
    let (ps, e, k) =
      range_points_lem c' g out (read_tag_group-Answers fl device ended (alive g) c g hg) in
    let (qs, e', k') = read_groups-AllAnswered fl device ended alive c' (acc ++ ps) gs hgs in
    (
      qs,
      rw e e',
      rw (tag_ids-append g (flat gs)) (Perm.trans k' (more acc ps g (tag_ids (flat gs)) k)),
    )

-- ReadTags of a Modbus client always succeeds and answers for every tag: if each tag has as many
-- registers as its type needs, then whatever the device answers, however early the context ends,
-- and in whatever order the groups are walked, the result holds exactly one point for each given
-- tag (the ids of the points are a rearrangement of the ids of the tags).
pub read_tags_complete :
    (fl : Floats) (device : Device) (ended : ClientError) (alive : List Tag → ℕ)
    (order : List (List Tag) → List (List Tag)) (c : Client) (ts : List Tag)
    → ((gs : List (List Tag)) → Perm (order gs) gs)
    → All HasRegisters ts
    → (ps : List DataPoint) × ((read_tags fl device ended alive order c ts).1 ≡ done ps)
      × Perm (point_ids ps) (tag_ids ts)
unfolding read_tags
read_tags_complete fl device ended alive order c [] perm h = ([], refl, Perm.refl _)
read_tags_complete fl device ended alive order c (t ∷ ts) perm h =
    let same = perm-group_tags_by_type order (t ∷ ts) perm in
    let h' = All-perm HasRegisters (λ u. le_prop) (Perm.symm same) h in
    let (ps, e, k) =
      read_groups-AllAnswered fl device ended alive c [] (group_tags_by_type order (t ∷ ts)) h' in
    (ps, e, Perm.trans k (Perm.map (λ (u : Tag). u.id) same))
