-- ===== src/Service/Command/Index.antt =====
-- The tags that internal/service/command_handler.go finds through a handler's life.
use protocol_gateway.Prelude.{
  ◌≡◌, remove_at, refl, List, [], ◌∷◌, String, str_eq, Bool-cases, Option, none, some, Option-cases,
  arith, if◌then◌else◌, length, inl, inr, ltb, ℕ, Bool, ap,
}
use protocol_gateway.Prelude.Dict.{lookup, insert, lookup-insert, lookup-delete}
use protocol_gateway.Domain.Tag.{Tag}
use protocol_gateway.Domain.Device.{Device}
use protocol_gateway.Domain.Manager.{ProtocolManager}
use protocol_gateway.Service.Command.{
  WriteCommand, CommandHandler, Parsers, index_tags, build_tag_index, new_command_handler,
  idle_handler, add_devices, add_device, remove_device, update_devices, enqueue,
  handle_write_command, handle_tag_write_command, send_response, count_received, count_rejected,
  count_failed, count_succeeded,
}
use protocol_gateway.Service.Command.Processing.{
  accept, accept_next, acquire, reject, conclude, complete, outcome, find_tag,
}
use protocol_gateway.Service.Command.Life.{
  Step, Reachable, start_handler, request_stop, end_stop, leave,
}

-- The last tag of a list with this id.
abbrev pub last_tag : String → List Tag → Option Tag
last_tag id [] = none
last_tag id (t ∷ ts) = elim (last_tag id ts) [
  | none ↦ if str_eq t.id id then some t else none
  | some found ↦ some found
]

lookup-index_tags :
    (id : String) (ts : List Tag) (m : List (String × Tag))
    → lookup id (index_tags ts m) ≡ (elim (last_tag id ts) [ none ↦ lookup id m | some t ↦ some t ])
unfolding index_tags
lookup-index_tags id [] m = refl
lookup-index_tags id (t ∷ ts) m =
    let rest = lookup-index_tags id ts (insert t.id t m) in
    let put = lookup-insert t.id id t m in ground (arith, rest, put)

-- The index of a handler holds the tags of its devices, and no others.
pub Indexed : CommandHandler → Type 0
Indexed h =
    (id : String)
    → lookup id h.tag_by_id
      ≡ (elim (lookup id h.devices) [ none ↦ none | some d ↦ some (build_tag_index d) ])

add_device-Indexed : (d : Device) (h : CommandHandler) → Indexed h → Indexed (add_device d h)
unfolding add_device Indexed
add_device-Indexed d h i id =
    let tags = lookup-insert d.id id (build_tag_index d) h.tag_by_id in
    let devices = lookup-insert d.id id d h.devices in ground (arith, tags, devices, i id)

remove_device-Indexed :
    (id : String) (h : CommandHandler) → Indexed h → Indexed (remove_device id h)
unfolding remove_device Indexed
remove_device-Indexed gone h i id =
    let tags = lookup-delete gone id h.tag_by_id in
    let devices = lookup-delete gone id h.devices in ground (arith, tags, devices, i id)

add_devices-Indexed :
    (ds : List Device) (h : CommandHandler) → Indexed h → Indexed (add_devices ds h)
unfolding add_devices
add_devices-Indexed [] h i = i
add_devices-Indexed (d ∷ ds) h i =
    add_devices-Indexed ds (add_device d h) (add_device-Indexed d h i)

-- What the other operations leave alone.
abbrev index : CommandHandler → List (String × Device) × List (String × List (String × Tag))
index h = (h.devices, h.tag_by_id)

index-enqueue : (c : WriteCommand) (h : CommandHandler) → index (enqueue c h) ≡ index h
unfolding enqueue send_response count_rejected
index-enqueue c h = ground arith

index-handle_write_command :
    (ps : Parsers) (topic payload : String) (h : CommandHandler)
    → index (handle_write_command ps topic payload h) ≡ index h
unfolding handle_write_command count_received count_rejected
index-handle_write_command ps topic payload h =
    elim (Bool-cases (ltb (length (ps.split topic)) 3)) [
      | inl e ↦ rw e refl
      | inr e ↦ elim (Option-cases (ps.command_of payload)) [
        | inl n ↦ rw (handle_write_command, e, n) refl
        | inr (c, n) ↦ rw (handle_write_command, e, n) (index-enqueue _ (count_received h))
      ]
    ]

index-handle_tag_write_command :
    (ps : Parsers) (topic payload : String) (h : CommandHandler)
    → index (handle_tag_write_command ps topic payload h) ≡ index h
unfolding handle_tag_write_command count_received count_rejected
index-handle_tag_write_command ps topic payload h =
    elim (Bool-cases (ltb (length (ps.split topic)) 4)) [
      | inl e ↦ rw e refl
      | inr e ↦ rw e (index-enqueue _ (count_received h))
    ]

index-accept_next :
    (done_first : Bool) (cs : List WriteCommand) (h : CommandHandler)
    → index (accept_next done_first cs h) ≡ index h
unfolding accept_next acquire reject send_response count_rejected
index-accept_next done_first [] h = refl
index-accept_next done_first (c ∷ rest) h = ground arith

index-conclude :
    (c : WriteCommand) (out : Option String) (h : CommandHandler)
    → index (conclude c out h) ≡ index h
unfolding conclude send_response count_failed count_succeeded
index-conclude c none h = refl
index-conclude c (some e) h = refl

index-complete :
    (m : ProtocolManager) (i : ℕ) (h : CommandHandler) → index (complete m i h) ≡ index h
unfolding complete
index-complete m i h = elim (Option-cases (remove_at i h.writing)) [
  | inl e ↦ rw (complete, e) refl
  | inr ((c, rest), e) ↦ rw (complete, e) (index-conclude c (outcome m h c) _)
]

index-Indexed : (h k : CommandHandler) → index k ≡ index h → Indexed h → Indexed k
unfolding Indexed
index-Indexed h k e i id =
    let devices = ap (λ x. x.0) e in let tags = ap (λ x. x.1) e in rw (devices, tags) (i id)

empty-Indexed : (h : CommandHandler) → h.devices ≡ [] → h.tag_by_id ≡ [] → Indexed h
unfolding Indexed lookup
empty-Indexed h d t id = rw (d, t) refl

Step-Indexed : {h k : CommandHandler} → Indexed h → Step h k → Indexed k
unfolding accept update_devices request_stop end_stop leave start_handler
Step-Indexed {h} i (Step.wrote ps topic payload) =
    index-Indexed _ _ (index-handle_write_command ps topic payload h) i
Step-Indexed {h} i (Step.wrote_tag ps topic payload) =
    index-Indexed _ _ (index-handle_tag_write_command ps topic payload h) i
Step-Indexed {h} i (Step.accepted done_first idle) =
    index-Indexed _ _ (index-accept_next done_first h.queue h) i
Step-Indexed {h} i (Step.completed m n) = index-Indexed _ _ (index-complete m n h) i
Step-Indexed i (Step.left e idle) = index-Indexed _ _ refl i
Step-Indexed i (Step.started first second) = index-Indexed _ _ refl i
Step-Indexed i Step.stopping = index-Indexed _ _ refl i
Step-Indexed i (Step.stopped e n) = index-Indexed _ _ refl i
Step-Indexed i (Step.updated ds) = add_devices-Indexed ds _ (empty-Indexed _ refl refl)
Step-Indexed {h} i (Step.added d) = add_device-Indexed d h i
Step-Indexed {h} i (Step.removed id) = remove_device-Indexed id h i

Reachable-Indexed : {h : CommandHandler} → Reachable h → Indexed h
unfolding new_command_handler idle_handler
Reachable-Indexed (Reachable.created c ds) = add_devices-Indexed ds _ (empty-Indexed _ refl refl)
Reachable-Indexed (Reachable.then r s) = Step-Indexed (Reachable-Indexed r) s

-- In every state a handler reaches, the tag a command is written to is the last tag with the
-- command's tag id among the tags of the device that the handler has under the command's device id,
-- and there is none if it has no such device.
pub find_tag-last_tag :
    {h : CommandHandler}
    → Reachable h
    → (c : WriteCommand)
    → find_tag h c
      ≡ (elim (lookup c.device_id h.devices) [ none ↦ none | some d ↦ last_tag c.tag_id d.tags ])
unfolding find_tag build_tag_index Indexed lookup
find_tag-last_tag {h} r c =
    let i = Reachable-Indexed r c.device_id in
    elim (Option-cases (lookup c.device_id h.devices)) [
      | inl n ↦ rw (find_tag, i, n) refl
      | inr (d, n) ↦ rw (find_tag, i, n, lookup-index_tags c.tag_id d.tags []) (ground arith)
    ]
