-- ===== src/Service/Command/Account.antt =====
-- The counters of internal/service/command_handler.go through the life of a handler.
use protocol_gateway.Prelude.{◌≡◌, ap, refl, List, [], ◌∷◌, arith}
use protocol_gateway.Domain.Device.{Device}
use protocol_gateway.Service.Command.{
  CommandConfig, CommandStats, WriteCommand, WriteResponse, CommandHandler, new_command_handler,
  idle_handler, add_devices, add_device, remove_device, update_devices,
}
use protocol_gateway.Service.Command.Processing.{accept}
use protocol_gateway.Service.Command.Life.{
  Step, Reachable, start_handler, request_stop, end_stop, leave,
}
use protocol_gateway.Service.Command.Balance.{
  Balanced, handle_write_command-Balanced, handle_tag_write_command-Balanced, accept_next-Balanced,
  complete-Balanced,
}

-- What the counters speak of: neither the devices, nor the workers, nor the flags.
abbrev work :
    CommandHandler
    → CommandConfig × CommandStats × List WriteCommand × List WriteCommand × List WriteResponse
work h = (h.config, h.stats, h.queue, h.writing, h.responses)

work-add_devices : (ds : List Device) (h : CommandHandler) → work (add_devices ds h) ≡ work h
unfolding add_devices add_device
work-add_devices [] h = refl
work-add_devices (d ∷ ds) h = work-add_devices ds (add_device d h)

work-Balanced :
    {h : CommandHandler} (k : CommandHandler) → work k ≡ work h → Balanced 0 h → Balanced 0 k
work-Balanced k e b =
    let config = ap (λ w. w.0) e in
    let stats = ap (λ w. w.1) e in
    let queue = ap (λ w. w.2) e in
    let writing = ap (λ w. w.3) e in
    let responses = ap (λ w. w.4) e in
    record {
      received = rw (stats, queue, writing) b.received;
      queued = rw (queue, config) b.queued;
      held = rw (writing, config) b.held;
      reported = rw (responses, config, stats) b.reported;
      answered = rw (responses, stats) b.answered;
    }

Step-Balanced : {h k : CommandHandler} → Balanced 0 h → Step h k → Balanced 0 k
unfolding accept add_device remove_device update_devices request_stop end_stop leave start_handler
Step-Balanced {h} b (Step.wrote ps topic payload) =
    handle_write_command-Balanced ps topic payload h b
Step-Balanced {h} b (Step.wrote_tag ps topic payload) =
    handle_tag_write_command-Balanced ps topic payload h b
Step-Balanced {h} b (Step.accepted done_first idle) =
    accept_next-Balanced done_first h.queue h refl b
Step-Balanced {h} b (Step.completed m i) = complete-Balanced m i h b
Step-Balanced b (Step.left e idle) = work-Balanced _ refl b
Step-Balanced b (Step.started first second) = work-Balanced _ refl b
Step-Balanced b Step.stopping = work-Balanced _ refl b
Step-Balanced b (Step.stopped e n) = work-Balanced _ refl b
Step-Balanced {h} b (Step.updated ds) = work-Balanced _ (work-add_devices ds _) b
Step-Balanced b (Step.added d) = work-Balanced _ refl b
Step-Balanced b (Step.removed id) = work-Balanced _ refl b

idle_handler-Balanced : (c : CommandConfig) → Balanced 0 (idle_handler c)
unfolding idle_handler
idle_handler-Balanced c = record {
  received = refl;
  queued = omega arith;
  held = omega arith;
  reported = ground arith;
  answered = omega arith;
}

created-Balanced : (c : CommandConfig) (ds : List Device) → Balanced 0 (new_command_handler c ds)
unfolding new_command_handler
created-Balanced c ds =
    work-Balanced _ (work-add_devices ds (idle_handler c)) (idle_handler-Balanced c)

-- In every state a handler reaches, each command it received is counted once as succeeded, failed
-- or rejected, waits in the queue, or is being written; the queue is within its size and the writes
-- within their limit; the responses that report a success are as many as the commands that
-- succeeded, or none where acknowledgements are off; and there are no more responses than commands
-- that succeeded, failed or were rejected.
pub Reachable-Balanced : {h : CommandHandler} → Reachable h → Balanced 0 h
Reachable-Balanced (Reachable.created c ds) = created-Balanced c ds
Reachable-Balanced (Reachable.then r s) = Step-Balanced (Reachable-Balanced r) s
