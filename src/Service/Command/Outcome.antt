-- ===== src/Service/Command/Outcome.antt =====
-- What a command that internal/service/command_handler.go writes has in common with its device.
use protocol_gateway.Service.Command.Index.{last_tag, find_tag-last_tag}
use protocol_gateway.Prelude.{◌≡◌, refl, ◌∙◌, none, some, Option-cases, arith, inl, inr, true}
use protocol_gateway.Prelude.Dict.{lookup}
use protocol_gateway.Domain.Tag.{Tag, is_writable}
use protocol_gateway.Domain.Device.{Device}
use protocol_gateway.Domain.Manager.{ProtocolManager, route_write_tag, ProtocolPool, get_pool}
use protocol_gateway.Service.Command.{WriteCommand, CommandHandler, Value}
use protocol_gateway.Service.Command.Processing.{outcome, find_tag}
use protocol_gateway.Service.Command.Life.{Reachable}

-- What it takes to write a command: its device, the tag meant, and a pool that takes the value.
pub record Written (m : ProtocolManager) (h : CommandHandler) (c : WriteCommand) : Type 0 where
  device : Device
  tag : Tag
  held : lookup c.device_id h.devices ≡ some device
  meant : last_tag c.tag_id device.tags ≡ some tag
  writable : is_writable tag ≡ true
  pool : ProtocolPool
  routed : get_pool device.protocol m ≡ some pool
  taken : pool.write_tag device tag c.value ≡ none

route_write_tag-routed :
    (m : ProtocolManager) (d : Device) (t : Tag) (v : Value)
    → route_write_tag m d t v ≡ none
    → (p : ProtocolPool) × (get_pool d.protocol m ≡ some p) × (p.write_tag d t v ≡ none)
unfolding route_write_tag
route_write_tag-routed m d t v e = elim (Option-cases (get_pool d.protocol m)) [
  | inl n ↦ cc (rw (route_write_tag, n) at e)
  | inr (p, n) ↦ (p, n, rw (route_write_tag, n) at e)
]

-- In every state a handler reaches, a command that is concluded without an error names a device
-- that the handler has, the last tag with its tag id is writable, and the pool that is registered
-- for the protocol of the device took the value for this tag.
pub outcome-Written :
    {h : CommandHandler}
    → Reachable h
    → (m : ProtocolManager) (c : WriteCommand) → outcome m h c ≡ none
    → Written m h c
unfolding outcome
outcome-Written {h} r m c e = elim (Option-cases (lookup c.device_id h.devices)) [
  | inl n ↦ cc (rw (outcome, n) at e)
  | inr (d, n) ↦
      let f : find_tag h c ≡ last_tag c.tag_id d.tags = find_tag-last_tag r c ∙ rw n refl in
      elim (Option-cases (last_tag c.tag_id d.tags)) [
        | inl k ↦ cc (rw (outcome, n, f, k) at e)
        | inr (t, k) ↦
            let ran = rw (outcome, n, f, k) at e in
            let w : is_writable t ≡ true = ground (arith, ran) in
            let (p, routed, taken) =
              route_write_tag-routed m d t c.value (ground (arith, rw w at ran)) in
            record {
              device = d;
              tag = t;
              held = n;
              meant = k;
              writable = w;
              pool = p;
              routed = routed;
              taken = taken;
            }
      ]
]
