-- ===== src/Modbus/Range/Slices.antt =====
-- The points of one range, as readRegisterRange and readCoilRange slice them out of its bytes.
use mathlib.Core.List.{map-append, append_assoc, append-nil}
use protocol_gateway.Prelude.{
  ◌/◌, ℕ, ◌+◌, ◌-◌, ◌*◌, ◌%◌, ◌≤◌, ◌≡◌, ◌≢◌, inl, inr, refl, sym, String, List, [], ◌∷◌, ◌++◌, map,
  length, take, drop, leb, ltb, All, Bool-cases,
}
use protocol_gateway.Domain.Errors.{invalid_data_length, Result, ok, err, panic}
use protocol_gateway.Domain.Float.{Floats}
use protocol_gateway.Domain.Tag.{Tag, RegisterType, expected_register_count}
use protocol_gateway.Domain.Value.{Value}
use protocol_gateway.Domain.DataPoint.{DataPoint, acquire_data_point, with_raw_value, with_priority}
use protocol_gateway.Modbus.Convert.{parse_value, is_bit_register}
use protocol_gateway.Modbus.Convert.{is_bit_register}
use protocol_gateway.Modbus.Convert.Total.{parse_value-total}
use protocol_gateway.Modbus.Errors.{ClientError, domain, Outcome, done, fails, panics}
use protocol_gateway.Modbus.Client.{Client}
use protocol_gateway.Modbus.Batch.{RegisterRange}
use protocol_gateway.Modbus.Range.{
  answered, begin, is_word_register, Reply, bytes_read, failed, Device, Progress, fail_tag,
  pass_tag, finish_tag, read_tag_at, read_tags_at, unwrap, on_reply, read_register_range,
  read_coil_at, read_coils_at, on_coil_reply, read_coil_range,
}

abbrev pub tag_ids : List Tag → List String
tag_ids = map (λ t. t.id)

abbrev pub point_ids : List DataPoint → List String
point_ids = map (λ p. p.tag_id)

-- The registers of the tag hold its type.
abbrev pub HasRegisters : Tag → Type 0
HasRegisters t = expected_register_count t.data_type ≤ t.register_count

fail_tag-ids :
    (p : Progress) (t : Tag) (e : ClientError)
    → point_ids (fail_tag p t e).points ≡ point_ids p.points ++ t.id ∷ []
unfolding fail_tag acquire_data_point
fail_tag-ids p t e = map-append (λ (q : DataPoint). q.tag_id) p.points _

pass_tag-ids :
    (fl : Floats) (p : Progress) (t : Tag) (v : Value)
    → point_ids (pass_tag fl p t v).points ≡ point_ids p.points ++ t.id ∷ []
unfolding pass_tag acquire_data_point with_raw_value with_priority
pass_tag-ids fl p t v = map-append (λ (q : DataPoint). q.tag_id) p.points _

-- The loop went on and gave one more point for each of the tags.
abbrev pub Adds : Progress → List String → Outcome Progress → Type 0
Adds p ids out = (q : Progress) × (out ≡ done q) × (point_ids q.points ≡ point_ids p.points ++ ids)

finish_tag-Adds :
    (fl : Floats) (p : Progress) (t : Tag) (r : Result Value)
    → r ≢ panic
    → Adds p (t.id ∷ []) (finish_tag fl p t r)
unfolding finish_tag
finish_tag-Adds fl p t (ok v) h = (pass_tag fl p t v, refl, pass_tag-ids fl p t v)
finish_tag-Adds fl p t (err e) h = (_, refl, fail_tag-ids p t (domain e))
finish_tag-Adds fl p t panic h = absurd (h refl)

read_tag_at-Adds :
    (fl : Floats) (start : ℕ) (p : Progress) (t : Tag)
    → HasRegisters t
    → Adds p (t.id ∷ []) (read_tag_at fl start p t)
unfolding read_tag_at
read_tag_at-Adds fl start p t h =
    let offset = (t.address + 65536 - start) % 65536 * 2 in
    let size = t.register_count * 2 in
    elim (Bool-cases (ltb (length p.raw) (offset + size))) [
      | inl e ↦ rw e (_, refl, fail_tag-ids p t (domain invalid_data_length))
      | inr e ↦ rw e (
          finish_tag-Adds fl _ t (parse_value (take size (drop offset p.raw)) t).0
            (parse_value-total (take size (drop offset p.raw)) t h))
    ]

-- Such a loop ends and gives one point for each tag.
pub read_tags_at-Adds :
    (fl : Floats) (start : ℕ) (p : Progress) (ts : List Tag)
    → All HasRegisters ts
    → Adds p (tag_ids ts) (read_tags_at fl start p ts)
unfolding read_tags_at
read_tags_at-Adds fl start p [] h = (p, refl, sym (append-nil _))
read_tags_at-Adds fl start p (t ∷ ts) (h, hs) =
    let (q, e, k) = read_tag_at-Adds fl start p t h in
    let (r, e', k') = read_tags_at-Adds fl start q ts hs in
    (r, rw e e', rw (k', k) (append_assoc (point_ids p.points) (t.id ∷ []) (tag_ids ts)))

-- An answer with one point for each tag, in order, or an error.
abbrev pub OnePerTag : List Tag → Outcome (List DataPoint) → Type 0
OnePerTag ts (done ps) = point_ids ps ≡ tag_ids ts
OnePerTag ts (fails e) = Unit
OnePerTag ts panics = ⊥

on_reply-OnePerTag :
    (fl : Floats) (start : ℕ) (c : Client) (ts : List Tag) (r : Reply)
    → All HasRegisters ts
    → OnePerTag ts (on_reply fl start c ts r).1
unfolding on_reply unwrap
on_reply-OnePerTag fl start c ts (failed e) h = tt
on_reply-OnePerTag fl start c ts (bytes_read raw) h =
    let (q, e, k) = read_tags_at-Adds fl start (begin (answered c) raw) ts h in rw e k

-- Reading a range of registers whose tags have at least as many registers as their types need gives
-- an error, or one point for each tag of the range in order, whatever the device answers; it never
-- runs out of a slice.
pub read_register_range-OnePerTag :
    (fl : Floats) (device : Device) (kind : RegisterType) (c : Client) (r : RegisterRange)
    → All HasRegisters r.tags
    → OnePerTag r.tags (read_register_range fl device kind c r).1
unfolding read_register_range
read_register_range-OnePerTag fl device kind c r h = elim (Bool-cases c.has_client) [
  | inl e ↦ elim (Bool-cases (is_word_register kind)) [
    | inl w ↦ simp (e, w) (on_reply-OnePerTag fl r.start_address c r.tags _ h)
    | inr w ↦ simp (e, w) tt
  ]
  | inr e ↦ simp e tt
]

read_coil_at-ids :
    (fl : Floats) (start : ℕ) (p : Progress) (t : Tag)
    → point_ids (read_coil_at fl start p t).points ≡ point_ids p.points ++ t.id ∷ []
unfolding read_coil_at
read_coil_at-ids fl start p t =
    elim (Bool-cases (leb (length p.raw) ((t.address + 65536 - start) % 65536 / 8))) [
      | inl e ↦ rw e (fail_tag-ids p t (domain invalid_data_length))
      | inr e ↦ rw e (pass_tag-ids fl p t _)
    ]

read_coils_at-ids :
    (fl : Floats) (start : ℕ) (p : Progress) (ts : List Tag)
    → point_ids (read_coils_at fl start p ts).points ≡ point_ids p.points ++ tag_ids ts
unfolding read_coils_at
read_coils_at-ids fl start p [] = sym (append-nil _)
read_coils_at-ids fl start p (t ∷ ts) =
    rw (read_coils_at-ids fl start (read_coil_at fl start p t) ts, read_coil_at-ids fl start p t)
      (append_assoc (point_ids p.points) (t.id ∷ []) (tag_ids ts))

on_coil_reply-OnePerTag :
    (fl : Floats) (start : ℕ) (c : Client) (ts : List Tag) (r : Reply)
    → OnePerTag ts (on_coil_reply fl start c ts r).1
unfolding on_coil_reply
on_coil_reply-OnePerTag fl start c ts (failed e) = tt
on_coil_reply-OnePerTag fl start c ts (bytes_read raw) = read_coils_at-ids fl start _ ts

-- Reading a range of coils gives an error, or one point for each tag of the range in order,
-- whatever the device answers; it never runs out of a slice.
pub read_coil_range-OnePerTag :
    (fl : Floats) (device : Device) (kind : RegisterType) (c : Client) (r : RegisterRange)
    → OnePerTag r.tags (read_coil_range fl device kind c r).1
unfolding read_coil_range
read_coil_range-OnePerTag fl device kind c r = elim (Bool-cases c.has_client) [
  | inl e ↦ elim (Bool-cases (is_bit_register kind)) [
    | inl w ↦ simp (e, w) (on_coil_reply-OnePerTag fl r.start_address c r.tags _)
    | inr w ↦ simp (e, w) tt
  ]
  | inr e ↦ simp e tt
]
