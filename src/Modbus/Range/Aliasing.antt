-- ===== src/Modbus/Range/Aliasing.antt =====
-- The buffer of a range, which its tags share and parseValue reorders in place.
use mathlib.Core.List.{append_assoc, append-nil}
use protocol_gateway.Prelude.{
  ℕ, ◌+◌, ◌-◌, ◌*◌, ◌%◌, ◌^◌, ◌≡◌, refl, sym, ap, ◌∙◌, false, String, List, [], ◌∷◌, ◌++◌, map,
  length, take, drop, ltb, All, Bool-cases, inl, inr, arith, if◌then◌else◌, take-drop_slice,
}
use protocol_gateway.Domain.Errors.{Result, ok, err, panic, invalid_data_length}
use protocol_gateway.Domain.Float.{Floats}
use protocol_gateway.Domain.Tag.{Tag, DataType, ByteOrder}
use protocol_gateway.Domain.Value.{Value}
use protocol_gateway.Domain.DataPoint.{
  DataPoint, good, acquire_data_point, with_raw_value, with_priority,
}
use protocol_gateway.Modbus.Convert.{parse_value, is_bit_register, apply_scaling}
use protocol_gateway.Modbus.Convert.InPlace.{parse_value-big_endian, parse_value-little_endian}
use protocol_gateway.Modbus.Errors.{Outcome, done, fails, panics, domain, error_quality, bind-done}
use protocol_gateway.Modbus.Range.Slices.{HasRegisters, read_tags_at-Adds}
use protocol_gateway.Modbus.Client.{Client, record_tag_success, record_tag_error}
use protocol_gateway.Modbus.Range.{
  Progress, pass_tag, finish_tag, read_tag_at, read_tags_at, begin, create_error_data_point,
}

-- What a tag is worth by itself: the point of its own slice of the registers, read by nobody else.
abbrev offset_of : ℕ → Tag → ℕ
offset_of start t = (t.address + 65536 - start) % 65536 * 2

module _ (fl : Floats) (device_id : String) where
  unfoldable pub point_of_result : Tag → Result Value → DataPoint
  point_of_result t (ok v) =
      with_priority
        (with_raw_value (acquire_data_point device_id t.id "" (apply_scaling fl v t) t.unit good) v)
        t.priority
  point_of_result t (err e) =
      acquire_data_point device_id t.id "" Value.null t.unit (error_quality (domain e))
  point_of_result t panic =
      acquire_data_point device_id t.id "" Value.null t.unit
        (error_quality (domain invalid_data_length))

  abbrev pub point_alone : ℕ → List ℕ → Tag → DataPoint
  point_alone start raw t =
      let size = t.register_count * 2 in
      if ltb (length raw) (offset_of start t + size)
      then point_of_result t (err invalid_data_length)
      else point_of_result t (parse_value (take size (drop (offset_of start t) raw)) t).0

abbrev pub IsBigEndian : Tag → Type 0
IsBigEndian t = t.byte_order ≡ ByteOrder.big_endian

-- The loop has added one point and left the buffer and the device as they were.
abbrev AddsPoint : Progress → DataPoint → Outcome Progress → Type 0
AddsPoint p d (done q) =
    (q.points ≡ p.points ++ d ∷ []) × (q.raw ≡ p.raw) × (q.client.device_id ≡ p.client.device_id)
AddsPoint p d (fails e) = ⊥
AddsPoint p d panics = Unit

finish_tag-AddsPoint :
    (fl : Floats) (p : Progress) (xs : List ℕ) (t : Tag) (r : Result Value)
    → xs ≡ p.raw
    → AddsPoint p
        (point_of_result fl p.client.device_id t r)
        (finish_tag fl (record p { raw = xs }) t r)
unfolding finish_tag point_of_result create_error_data_point record_tag_success record_tag_error
finish_tag-AddsPoint fl p xs t (ok v) h = (refl, h, refl)
finish_tag-AddsPoint fl p xs t (err e) h = (refl, h, refl)
finish_tag-AddsPoint fl p xs t panic h = tt

read_tag_at-AddsPoint :
    (fl : Floats) (start : ℕ) (p : Progress) (t : Tag)
    → IsBigEndian t
    → AddsPoint p (point_alone fl p.client.device_id start p.raw t) (read_tag_at fl start p t)
unfolding read_tag_at
read_tag_at-AddsPoint fl start p t b =
    let offset = offset_of start t in
    let size = t.register_count * 2 in
    let back =
      ap (λ (xs : List ℕ). take offset p.raw ++ xs ++ drop (offset + size) p.raw)
        (parse_value-big_endian (take size (drop offset p.raw)) t b)
      ∙ take-drop_slice p.raw offset size in
    elim (Bool-cases (ltb (length p.raw) (offset + size))) [
      | inl e ↦ rw e (finish_tag-AddsPoint fl p p.raw t (err invalid_data_length) refl)
      | inr e ↦ rw e (finish_tag-AddsPoint fl p _ t _ back)
    ]

points_of : Progress → Outcome Progress → List DataPoint
points_of p (done q) = q.points
points_of p _ = p.points

-- The points of all tags, if nothing panics.
read_tags_at-points :
    (fl : Floats) (start : ℕ) (p q : Progress) (ts : List Tag)
    → All IsBigEndian ts
    → read_tags_at fl start p ts ≡ done q
    → q.points ≡ p.points ++ map (point_alone fl p.client.device_id start p.raw) ts
unfolding read_tags_at points_of
read_tags_at-points fl start p q [] b e =
    sym (ap (λ (r : Outcome Progress). points_of p r) e) ∙ sym (append-nil p.points)
read_tags_at-points fl start p q (t ∷ ts) (b, bs) e =
    let d = point_alone fl p.client.device_id start p.raw t in
    let (p', first, rest) = bind-done (read_tag_at fl start p t) _ e in
    let (ps, raw, dev) = rw first at (read_tag_at-AddsPoint fl start p t b) in
    let others = map (point_alone fl p.client.device_id start p.raw) ts in
    read_tags_at-points fl start p' q ts bs rest
    ∙ (rw (ps, raw, dev) (append_assoc p.points (d ∷ []) others))

-- Reading a range of big endian tags, each with as many registers as its type needs, agrees with
-- reading every tag alone: the loop ends without a panic, and its points are, in the order of the tags,
-- those that each tag's own slice of the registers gives.
pub read_tags_at-big_endian :
    (fl : Floats) (start : ℕ) (c : Client) (raw : List ℕ) (ts : List Tag)
    → All HasRegisters ts
    → All IsBigEndian ts
    → (q : Progress) × (read_tags_at fl start (begin c raw) ts ≡ done q)
      × (q.points ≡ map (point_alone fl c.device_id start raw) ts)
read_tags_at-big_endian fl start c raw ts h b =
    let (q, e, _) = read_tags_at-Adds fl start (begin c raw) ts h in
    (q, e, read_tags_at-points fl start (begin c raw) q ts b e)

offset_of_start : (t : Tag) → offset_of t.address t ≡ 0
offset_of_start t = omega arith

-- Reading a little endian uint16 tag swaps its bytes in the buffer.
read_tag_at-swaps :
    (fl : Floats) (p : Progress) (t : Tag) (a b : ℕ)
    → p.raw ≡ a ∷ b ∷ []
    → is_bit_register t.register_type ≡ false
    → t.register_count ≡ 1
    → t.data_type ≡ DataType.uint16
    → t.byte_order ≡ ByteOrder.little_endian
    → read_tag_at fl t.address p t
      ≡ done (pass_tag fl (record p { raw = b ∷ a ∷ [] }) t (Value.uint16 (b * 2 ^ 8 + a)))
unfolding read_tag_at finish_tag
read_tag_at-swaps fl p t a b raw r n d o =
    simp (offset_of_start t, n, raw, parse_value-little_endian a b t r n d o) refl

-- A little endian uint16 tag that is listed twice is read once right and once with its bytes
-- swapped: the first point has the little endian value of the register, the second the big endian
-- one.
pub read_tags_at-second_swapped :
    (fl : Floats) (c : Client) (t : Tag) (a b : ℕ)
    → is_bit_register t.register_type ≡ false
    → t.register_count ≡ 1
    → t.data_type ≡ DataType.uint16
    → t.byte_order ≡ ByteOrder.little_endian
    → (q : Progress) × (read_tags_at fl t.address (begin c (a ∷ b ∷ [])) (t ∷ t ∷ []) ≡ done q)
      × (map (λ d. d.raw_value) q.points
          ≡ Value.uint16 (b * 2 ^ 8 + a) ∷ Value.uint16 (a * 2 ^ 8 + b) ∷ [])
unfolding read_tags_at pass_tag with_raw_value with_priority
read_tags_at-second_swapped fl c t a b r n d o =
    let p = begin c (a ∷ b ∷ []) in
    let p' = pass_tag fl (record p { raw = b ∷ a ∷ [] }) t (Value.uint16 (b * 2 ^ 8 + a)) in
    let q = pass_tag fl (record p' { raw = a ∷ b ∷ [] }) t (Value.uint16 (a * 2 ^ 8 + b)) in
    let first = read_tag_at-swaps fl p t a b refl r n d o in
    let second = read_tag_at-swaps fl p' t b a refl r n d o in (q, rw first (rw second), refl)
