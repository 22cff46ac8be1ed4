-- ===== src/Modbus/Group.antt =====
-- Reading many tags (internal/adapter/modbus/client.go, ReadTags, groupTagsByType, readTagGroup and
-- readCoilGroupBatched).
pub mod Complete
use protocol_gateway.Prelude.{
  ℕ, zero, suc, Bool, true, false, String, str_eq, List, [], ◌∷◌, ◌++◌, map, if◌then◌else◌,
}
use protocol_gateway.Domain.Errors.{deadline_exceeded}
use protocol_gateway.Domain.Float.{Floats}
use protocol_gateway.Domain.Tag.{Tag, RegisterType}
use protocol_gateway.Domain.DataPoint.{DataPoint}
use protocol_gateway.Modbus.Convert.{is_bit_register}
use protocol_gateway.Modbus.Batch.{
  RegisterRange, default_batch_config, default_coil_batch_config, build_contiguous_ranges,
  build_coil_ranges,
}
use protocol_gateway.Modbus.Errors.{ClientError, Outcome, done, fails, panics, domain}
use protocol_gateway.Modbus.Client.{Client}
use protocol_gateway.Modbus.Range.{
  Device, create_error_data_point, read_register_range, read_coil_range,
}

-- A point for every tag of a range or a group that could not be read.
unfoldable pub error_points : Client → ClientError → List Tag → List DataPoint
error_points c e [] = []
error_points c e (t ∷ ts) = create_error_data_point c t e ∷ error_points c e ts

-- How a range is read: readRegisterRange or readCoilRange, for one device and register type.
abbrev pub Reader : Type 0
Reader = Client → RegisterRange → Client × Outcome (List DataPoint)

-- The points of one range, whose tags have error points if it fails.
abbrev range_points : Client → List Tag → Outcome (List DataPoint) → Outcome (List DataPoint)
range_points c ts (done ps) = done ps
range_points c ts (fails e) = done (error_points c e ts)
range_points c ts panics = panics

-- The rest of the loop after one range.
abbrev collect :
    List DataPoint
    → Outcome (List DataPoint)
    → (List DataPoint → Client × Outcome (List DataPoint))
    → Client
    → Client × Outcome (List DataPoint)
collect acc (done ps) next c = next (acc ++ ps)
collect acc (fails e) next c = (c, fails e)
collect acc panics next c = (c, panics)

-- The loop over the ranges. The context ends after `alive` ranges, with the error `ended`.
read_ranges :
    Reader
    → ClientError
    → ℕ
    → Client
    → List DataPoint
    → List RegisterRange
    → Client × Outcome (List DataPoint)
unfolding error_points
read_ranges read ended alive c acc [] = (c, done acc)
read_ranges read ended zero c acc (r ∷ rs) = (c, fails ended)
read_ranges read ended (suc alive) c acc (r ∷ rs) =
    let (c', out) = read c r in
    collect acc (range_points c' r.tags out) (λ acc'. read_ranges read ended alive c' acc' rs) c'

module _ (fl : Floats) (device : Device) (ended : ClientError) where
  read_coil_group_batched : RegisterType → ℕ → Client → List Tag → Client × Outcome (List DataPoint)
  unfolding read_ranges
  read_coil_group_batched kind alive c ts =
      read_ranges (read_coil_range fl device kind) ended alive c []
        (build_coil_ranges ts default_coil_batch_config)

  -- readTagGroup; the first tag tells the register type of the group.
  read_tag_group : ℕ → Client → List Tag → Client × Outcome (List DataPoint)
  unfolding read_coil_group_batched read_ranges
  read_tag_group alive c [] = (c, done [])
  read_tag_group alive c (t ∷ ts) =
      if is_bit_register t.register_type
      then read_coil_group_batched t.register_type alive c (t ∷ ts)
      else read_ranges (read_register_range fl device t.register_type) ended alive c []
          (build_contiguous_ranges (t ∷ ts) default_batch_config)

-- Equality of register types, which are strings in the source.
same_register : RegisterType → RegisterType → Bool
same_register RegisterType.unset RegisterType.unset = true
same_register RegisterType.coil RegisterType.coil = true
same_register RegisterType.discrete_input RegisterType.discrete_input = true
same_register RegisterType.holding_register RegisterType.holding_register = true
same_register RegisterType.input_register RegisterType.input_register = true
same_register (RegisterType.other s) (RegisterType.other r) = str_eq s r
same_register _ _ = false

-- groups[tag.RegisterType] = append(groups[tag.RegisterType], tag)
add_to_group : Tag → List (RegisterType × List Tag) → List (RegisterType × List Tag)
unfolding same_register
add_to_group t [] = (t.register_type, t ∷ []) ∷ []
add_to_group t ((k, ts) ∷ gs) =
    if same_register k t.register_type then (k, ts ++ t ∷ []) ∷ gs else (k, ts) ∷ add_to_group t gs

add_all : List Tag → List (RegisterType × List Tag) → List (RegisterType × List Tag)
unfolding add_to_group
add_all [] gs = gs
add_all (t ∷ ts) gs = add_all ts (add_to_group t gs)

-- groupTagsByType. Go leaves the order in which a map is walked open: it is the argument `order`.
unfoldable pub group_tags_by_type : (List (List Tag) → List (List Tag)) → List Tag → List (List Tag)
unfolding add_all
group_tags_by_type order ts = order (map (λ g. g.1) (add_all ts []))

module _ (fl : Floats) (device : Device) (ended : ClientError) (alive : List Tag → ℕ) where
  -- The loop of ReadTags: `alive g` ranges of the group g are read before the context ends.
  read_groups : Client → List DataPoint → List (List Tag) → Client × Outcome (List DataPoint)
  unfolding read_tag_group
  read_groups c acc [] = (c, done acc)
  read_groups c acc (g ∷ gs) =
      let (c', out) = read_tag_group fl device ended (alive g) c g in
      collect acc (range_points c' g out) (λ acc'. read_groups c' acc' gs) c'

  -- ReadTags.
  unfoldable pub read_tags :
      (List (List Tag) → List (List Tag)) → Client → List Tag → Client × Outcome (List DataPoint)
  unfolding read_groups group_tags_by_type
  read_tags order c [] = (c, done [])
  read_tags order c (t ∷ ts) = read_groups c [] (group_tags_by_type order (t ∷ ts))
