-- ===== src/Service/Command/Balance.antt =====
-- The counters of a command handler against its queue, its writes and its responses.
use protocol_gateway.Prelude.{
  ℕ, suc, ◌+◌, ◌≤◌, ◌≡◌, refl, ap, Bool, true, false, not, ◌&&◌, Bool-cases, String, List, [], ◌∷◌,
  ◌++◌, Option, none, some, Option-cases, inl, inr, length, length-append, remove_at,
  length-remove_at, ltb, arith, if◌then◌else◌,
}
use protocol_gateway.Domain.Manager.{ProtocolManager}
use protocol_gateway.Service.Command.{
  WriteCommand, WriteResponse, CommandHandler, CommandStats, Parsers, send_response, count_received,
  count_rejected, count_failed, count_succeeded, enqueue, handle_write_command,
  handle_tag_write_command,
}
use protocol_gateway.Service.Command.Processing.{
  reject, acquire, accept_next, conclude, outcome, complete,
}

-- The responses that report a success.
abbrev pub successes : List WriteResponse → ℕ
successes [] = 0
successes (r ∷ rs) = (if r.success then 1 else 0) + successes rs

-- `owed` commands are counted as received and are in nobody's hands.
pub record Balanced (owed : ℕ) (h : CommandHandler) : Type 0 where
  pub received :
      h.stats.received
      ≡ h.stats.succeeded
        + h.stats.failed
        + h.stats.rejected
        + length h.queue
        + length h.writing
        + owed
  pub queued : length h.queue ≤ h.config.command_queue_size
  pub held : length h.writing ≤ h.config.max_concurrent_writes
  pub reported :
      successes h.responses ≡ (if h.config.enable_acknowledgement then h.stats.succeeded else 0)
  pub answered : length h.responses ≤ h.stats.succeeded + h.stats.failed + h.stats.rejected

successes-append : (xs ys : List WriteResponse) → successes (xs ++ ys) ≡ successes xs + successes ys
successes-append [] ys = omega arith
successes-append (x ∷ xs) ys = omega (arith, successes-append xs ys)

-- A response is one more, or none if they are switched off.
record Sent (success : Bool) (h k : CommandHandler) : Type 0 where
  length_grows : length k.responses ≤ length h.responses + 1
  successes_grow :
      successes k.responses
      ≡ successes h.responses
        + (if h.config.enable_acknowledgement then if success then 1 else 0 else 0)

send_response-Sent :
    (c : WriteCommand) (success : Bool) (e : Option String) (h : CommandHandler)
    → Sent success h (send_response c success e h)
unfolding send_response
send_response-Sent c success e h =
    let r : WriteResponse = record {
      request_id = c.request_id;
      device_id = c.device_id;
      tag_id = c.tag_id;
      success = success;
      error = e;
    } in
    elim (Bool-cases h.config.enable_acknowledgement) [
      | inl b ↦ record {
        length_grows = simp b (omega (arith, length-append h.responses (r ∷ [])));
        successes_grow = simp b (omega (arith, successes-append h.responses (r ∷ [])));
      }
      | inr b ↦ record {
        length_grows = simp b (omega arith);
        successes_grow = simp b (omega arith);
      }
    ]

-- A command out of hand is answered and counted once.
module _ (owed : ℕ) (c : WriteCommand) (e : Option String) (h : CommandHandler) where
  counted-Balanced :
      (success : Bool) (s : CommandStats)
      → s.received ≡ h.stats.received
      → s.succeeded ≡ h.stats.succeeded + (if success then 1 else 0)
      → s.succeeded + s.failed + s.rejected
        ≡ suc (h.stats.succeeded + h.stats.failed + h.stats.rejected)
      → Balanced (suc owed) h
      → Balanced owed (record (send_response c success e h) { stats = s })
  unfolding send_response
  counted-Balanced success s same more one b =
      let sent = send_response-Sent c success e h in
      record {
        received = omega (arith, b.received, same, one);
        queued = b.queued;
        held = b.held;
        reported = ground (arith, sent.successes_grow, b.reported, more);
        answered = omega (arith, sent.length_grows, b.answered, one);
      }

  rejected-Balanced :
      Balanced (suc owed) h → Balanced owed (count_rejected (send_response c false e h))
  unfolding count_rejected send_response
  rejected-Balanced b = counted-Balanced false _ refl (omega arith) (omega arith) b

  failed-Balanced : Balanced (suc owed) h → Balanced owed (count_failed (send_response c false e h))
  unfolding count_failed send_response
  failed-Balanced b = counted-Balanced false _ refl (omega arith) (omega arith) b

  succeeded-Balanced :
      Balanced (suc owed) h → Balanced owed (count_succeeded (send_response c true e h))
  unfolding count_succeeded send_response
  succeeded-Balanced b = counted-Balanced true _ refl (omega arith) (omega arith) b

-- A message that is refused without a response.
dropped-Balanced : (h : CommandHandler) → Balanced 1 h → Balanced 0 (count_rejected h)
unfolding count_rejected
dropped-Balanced h b = record {
  received = omega (arith, b.received);
  queued = b.queued;
  held = b.held;
  reported = b.reported;
  answered = omega (arith, b.answered);
}

count_received-Balanced : (h : CommandHandler) → Balanced 0 h → Balanced 1 (count_received h)
unfolding count_received
count_received-Balanced h b = record {
  received = omega (arith, b.received);
  queued = b.queued;
  held = b.held;
  reported = b.reported;
  answered = b.answered;
}

enqueue-Balanced : (c : WriteCommand) (h : CommandHandler) → Balanced 1 h → Balanced 0 (enqueue c h)
unfolding enqueue
enqueue-Balanced c h b = elim (Bool-cases (ltb (length h.queue) h.config.command_queue_size)) [
  | inl e ↦ rw e (record {
    received = omega (arith, b.received, length-append h.queue (c ∷ []));
    queued = ground (arith, length-append h.queue (c ∷ []));
    held = b.held;
    reported = b.reported;
    answered = b.answered;
  })
  | inr e ↦ rw e (rejected-Balanced 0 c (some "command queue full, try again later") h b)
]

pub handle_write_command-Balanced :
    (ps : Parsers) (topic payload : String) (h : CommandHandler)
    → Balanced 0 h
    → Balanced 0 (handle_write_command ps topic payload h)
unfolding handle_write_command
handle_write_command-Balanced ps topic payload h b =
    let counted = count_received-Balanced h b in
    elim (Bool-cases (ltb (length (ps.split topic)) 3)) [
      | inl e ↦ rw e (dropped-Balanced (count_received h) counted)
      | inr e ↦ elim (Option-cases (ps.command_of payload)) [
        | inl n ↦ rw (handle_write_command, e, n) (dropped-Balanced (count_received h) counted)
        | inr (c, n) ↦
            rw (handle_write_command, e, n) (enqueue-Balanced _ (count_received h) counted)
      ]
    ]

pub handle_tag_write_command-Balanced :
    (ps : Parsers) (topic payload : String) (h : CommandHandler)
    → Balanced 0 h
    → Balanced 0 (handle_tag_write_command ps topic payload h)
unfolding handle_tag_write_command
handle_tag_write_command-Balanced ps topic payload h b =
    let counted = count_received-Balanced h b in
    elim (Bool-cases (ltb (length (ps.split topic)) 4)) [
      | inl e ↦ rw e (dropped-Balanced (count_received h) counted)
      | inr e ↦ rw e (enqueue-Balanced _ (count_received h) counted)
    ]

acquire-Balanced :
    (done_first : Bool) (c : WriteCommand) (h : CommandHandler)
    → Balanced 1 h
    → Balanced 0 (acquire done_first c h)
unfolding acquire reject
acquire-Balanced done_first c h b =
    elim (Bool-cases
      (ltb (length h.writing) h.config.max_concurrent_writes && not (h.cancelled && done_first))) [
        | inl e ↦ rw e (record {
          received = omega (arith, b.received, length-append h.writing (c ∷ []));
          queued = b.queued;
          held = ground (arith, length-append h.writing (c ∷ []));
          reported = b.reported;
          answered = b.answered;
        })
        | inr e ↦ rw e (rejected-Balanced 0 c _ h b)
      ]

pub accept_next-Balanced :
    (done_first : Bool) (cs : List WriteCommand) (h : CommandHandler)
    → h.queue ≡ cs
    → Balanced 0 h
    → Balanced 0 (accept_next done_first cs h)
unfolding accept_next
accept_next-Balanced done_first [] h e b = b
accept_next-Balanced done_first (c ∷ rest) h e b = acquire-Balanced done_first c _ (record {
  received = omega (arith, b.received, ap length e);
  queued = omega (arith, b.queued, ap length e);
  held = b.held;
  reported = b.reported;
  answered = b.answered;
})

conclude-Balanced :
    (c : WriteCommand) (out : Option String) (h : CommandHandler)
    → Balanced 1 h
    → Balanced 0 (conclude c out h)
unfolding conclude
conclude-Balanced c none h b = succeeded-Balanced 0 c none h b
conclude-Balanced c (some e) h b = failed-Balanced 0 c (some e) h b

pub complete-Balanced :
    (m : ProtocolManager) (i : ℕ) (h : CommandHandler) → Balanced 0 h → Balanced 0 (complete m i h)
unfolding complete
complete-Balanced m i h b = elim (Option-cases (remove_at i h.writing)) [
  | inl e ↦ rw (complete, e) b
  | inr ((c, rest), e) ↦
      rw (complete, e)
        (conclude-Balanced c (outcome m h c) _ (record {
          received = omega (arith, b.received, length-remove_at i h.writing c rest e);
          queued = b.queued;
          held = omega (arith, b.held, length-remove_at i h.writing c rest e);
          reported = b.reported;
          answered = b.answered;
        }))
]
