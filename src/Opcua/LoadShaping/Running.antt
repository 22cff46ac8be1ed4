-- ===== src/Opcua/LoadShaping/Running.antt =====
-- How many operations internal/adapter/opcua/loadshaping.go lets run at one time.
use protocol_gateway.Prelude.{
  ℕ, ◌+◌, ◌≤◌, ◌≡◌, refl, Bool, List, [], ◌∷◌, Option, Option-cases, inl, inr, length,
  length-append, either_branch, leb, ◌&&◌, ◌==◌, remove_at, length-remove_at, arith,
}
use protocol_gateway.Domain.Errors.{Error}
use protocol_gateway.Opcua.LoadShaping.{
  OpRequest, ConnectionPool, Outcome, read_now, new_connection_pool, count_in, count_out,
  enqueue_request, room_for, queue_or_refuse, proceed, against_limit, refuse_early,
  check_global_load, finish_direct, check_global_health, shut, priority_telemetry,
}
use protocol_gateway.Opcua.LoadShaping.Workers.{
  take_safety, take_control, take_telemetry, receive_safety, receive_control, receive_telemetry,
  finish_work,
}
use protocol_gateway.Opcua.LoadShaping.Steps.{Step, Calm, Calm-Reachable}
use protocol_gateway.Opcua.LoadShaping.Accounting.{Accounted, Reachable-Accounted, total}
use protocol_gateway.Opcua.LoadShaping.Bounds.{Reachable-Contained}

-- What runs in the callers is within the hard limit.
abbrev Fitting : ConnectionPool → Type 0
Fitting p = length p.direct ≤ p.config.max_global_in_flight

abbrev FittingAfter : ConnectionPool × Outcome → Type 0
FittingAfter r = Fitting r.0

queue_or_refuse-Fitting :
    (op : OpRequest) (p : ConnectionPool) → Fitting p → Fitting (queue_or_refuse op p).0
unfolding queue_or_refuse count_in count_out enqueue_request
queue_or_refuse-Fitting op p b =
    either_branch FittingAfter p.closed (λ e. b)
      (λ e. elim (Option-cases (room_for op p)) [
        | inl n ↦ simp n b
        | inr (fits, n) ↦ simp n (either_branch FittingAfter fits (λ f. b) (λ f. b))
      ])

total_one : (ops : List OpRequest) → total (λ op. 1) ops ≡ length ops
total_one [] = refl
total_one (op ∷ ops) = omega (arith, total_one ops)

direct_counted : (p : ConnectionPool) → Accounted p → length p.direct ≤ p.global_in_flight
direct_counted p a = omega (arith, a.global, total_one p.direct)

against_limit-Fitting :
    (e : Option Error) (tripped : Bool) (op : OpRequest) (p : ConnectionPool)
    → Accounted p
    → Fitting p
    → Fitting (against_limit (read_now e tripped op p) op p).0
unfolding against_limit proceed count_in read_now
against_limit-Fitting e tripped op p a b =
    either_branch FittingAfter
      (leb p.config.threshold p.global_in_flight && op.priority == priority_telemetry) (λ e. b)
      (λ e.
        either_branch FittingAfter (leb p.config.max_global_in_flight p.global_in_flight)
          (λ f. queue_or_refuse-Fitting op p b)
          (λ f. ground (arith, f, direct_counted p a, length-append p.direct (op ∷ []))))

check_global_load-Fitting :
    (e : Option Error) (tripped : Bool) (op : OpRequest) (p : ConnectionPool)
    → Accounted p
    → Fitting p
    → Fitting (check_global_load (read_now e tripped op p) op p).0
unfolding check_global_load
check_global_load-Fitting e tripped op p a b =
    elim (Option-cases (refuse_early p.config (read_now e tripped op p) op)) [
      | inl n ↦ simp (check_global_load, n) (against_limit-Fitting e tripped op p a b)
      | inr (e, n) ↦ simp (check_global_load, n) b
    ]

finish_direct-Fitting : (i : ℕ) (p : ConnectionPool) → Fitting p → Fitting (finish_direct i p)
unfolding finish_direct count_out
finish_direct-Fitting i p b = elim (Option-cases (remove_at i p.direct)) [
  | inl n ↦ simp (finish_direct, n) b
  | inr ((op, rest), n) ↦
      simp (finish_direct, n) (omega (arith, b, length-remove_at i p.direct op rest n))
]

finish_work-Fitting : (i : ℕ) (p : ConnectionPool) → Fitting p → Fitting (finish_work i p)
unfolding finish_work count_out
finish_work-Fitting i p b = elim (Option-cases (remove_at i p.working)) [
  | inl n ↦ simp (finish_work, n) b
  | inr ((op, rest), n) ↦ simp (finish_work, n) b
]

receive_safety-Fitting :
    (ops : List OpRequest) (p : ConnectionPool) → Fitting p → Fitting (receive_safety ops p)
unfolding receive_safety
receive_safety-Fitting [] p b = b
receive_safety-Fitting (op ∷ rest) p b = b

receive_control-Fitting :
    (ops : List OpRequest) (p : ConnectionPool) → Fitting p → Fitting (receive_control ops p)
unfolding receive_control
receive_control-Fitting [] p b = b
receive_control-Fitting (op ∷ rest) p b = b

receive_telemetry-Fitting :
    (ops : List OpRequest) (p : ConnectionPool) → Fitting p → Fitting (receive_telemetry ops p)
unfolding receive_telemetry
receive_telemetry-Fitting [] p b = b
receive_telemetry-Fitting (op ∷ rest) p b = b

Step-Fitting : {p q : ConnectionPool} → Fitting p → Step p q → Fitting q
unfolding take_safety take_control take_telemetry check_global_health shut
Step-Fitting {p} b (Step.ran i) = finish_direct-Fitting i p b
Step-Fitting {p} b (Step.took_safety h) = receive_safety-Fitting p.safety p b
Step-Fitting {p} b (Step.took_control h) = receive_control-Fitting p.control p b
Step-Fitting {p} b (Step.took_telemetry h) = receive_telemetry-Fitting p.telemetry p b
Step-Fitting {p} b (Step.finished i) = finish_work-Fitting i p b
Step-Fitting b Step.watched = b
Step-Fitting b Step.closing = b

Calm-Fitting : {p : ConnectionPool} → Calm p → Fitting p
unfolding new_connection_pool
Calm-Fitting (Calm.created c) = omega arith
Calm-Fitting (Calm.checked m e tripped op h) =
    check_global_load-Fitting e tripped op _ (Reachable-Accounted (Calm-Reachable m))
      (Calm-Fitting m)
Calm-Fitting (Calm.then m s) = Step-Fitting (Calm-Fitting m) s

-- Where nothing runs between the readings of a call and its counting, and the priorities of the
-- operations are at most that of safety, those that run in their callers and in the workers are together no more than the hard limit and the workers.
pub running-Calm :
    {p : ConnectionPool}
    → Calm p
    → length p.direct + length p.working ≤ p.config.max_global_in_flight + p.config.num_workers
running-Calm {p} m =
    let b = Reachable-Contained (Calm-Reachable m) in omega (arith, Calm-Fitting m, b.working)
