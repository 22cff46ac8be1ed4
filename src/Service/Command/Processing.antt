-- ===== src/Service/Command/Processing.antt =====
-- processWriteCommand of internal/service/command_handler.go, in two parts: up to the semaphore, and
-- after it.
use protocol_gateway.Prelude.{
  ℕ, Bool, true, false, not, ◌&&◌, String, List, [], ◌∷◌, ◌++◌, Option, none, some, length, ltb,
  remove_at, if◌then◌else◌,
}
use protocol_gateway.Prelude.Dict.{lookup}
use protocol_gateway.Domain.Errors.{message}
use protocol_gateway.Domain.Tag.{Tag, is_writable}
use protocol_gateway.Domain.Manager.{ProtocolManager, route_write_tag}
use protocol_gateway.Service.Command.{
  WriteCommand, CommandHandler, send_response, count_rejected, count_failed, count_succeeded,
}

unfoldable pub reject : WriteCommand → String → CommandHandler → CommandHandler
reject c e h = count_rejected (send_response c false (some e) h)

-- The select on the semaphore and the context. Where both are ready Go picks either, here `done_first`.
unfoldable pub acquire : Bool → WriteCommand → CommandHandler → CommandHandler
unfolding reject
acquire done_first c h =
    let room = ltb (length h.writing) h.config.max_concurrent_writes in
    if room && not (h.cancelled && done_first)
    then record h { writing = h.writing ++ c ∷ [] }
    else reject c
        (if h.cancelled
          then "service shutting down"
          else "rate limit exceeded, too many concurrent writes")
        h

unfoldable pub accept_next : Bool → List WriteCommand → CommandHandler → CommandHandler
unfolding acquire
accept_next done_first [] h = h
accept_next done_first (c ∷ rest) h = acquire done_first c (record h { queue = rest })

-- A worker takes the oldest command of the queue.
unfoldable pub accept : Bool → CommandHandler → CommandHandler
unfolding accept_next
accept done_first h = accept_next done_first h.queue h

-- The tag of a command: tagByID is only read for a device that exists.
unfoldable pub find_tag : CommandHandler → WriteCommand → Option Tag
find_tag h c = elim (lookup c.device_id h.tag_by_id) [ none ↦ none | some m ↦ lookup c.tag_id m ]

-- What becomes of a command: none, or the text of its error.
unfoldable pub outcome : ProtocolManager → CommandHandler → WriteCommand → Option String
outcome m h c = elim (lookup c.device_id h.devices) [
  | none ↦ some "device not found"
  | some d ↦ elim (find_tag h c) [
    | none ↦ some "tag not found"
    | some t ↦
        if is_writable t
        then elim (route_write_tag m d t c.value) [ none ↦ none | some e ↦ some (message e) ]
        else some "tag is not writable"
  ]
]

unfoldable pub conclude : WriteCommand → Option String → CommandHandler → CommandHandler
conclude c none h = count_succeeded (send_response c true none h)
conclude c (some e) h = count_failed (send_response c false (some e) h)

-- The write of one of the commands that hold the semaphore ends, and the semaphore is released.
unfoldable pub complete : ProtocolManager → ℕ → CommandHandler → CommandHandler
unfolding conclude
complete m i h = elim (remove_at i h.writing) [
  | none ↦ h
  | some r ↦ conclude r.0 (outcome m h r.0) (record h { writing = r.1 })
]
