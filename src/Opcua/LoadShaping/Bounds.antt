-- ===== src/Opcua/LoadShaping/Bounds.antt =====
-- How many operations internal/adapter/opcua/loadshaping.go lets wait and run.
use protocol_gateway.Prelude.{
  ℕ, ◌+◌, ◌≤◌, ◌<◌, ◌≡◌, refl, ap, Bool, true, false, List, [], ◌∷◌, some, Option-cases, inl, inr,
  length, length-append, either_branch, leb, ◌&&◌, ◌==◌, remove_at, length-remove_at, arith,
  if◌then◌else◌, ◌∙◌,
}
use protocol_gateway.Opcua.LoadShaping.{
  OpRequest, ShapingConfig, ConnectionPool, Readings, Outcome, new_connection_pool, count_in,
  count_out, enqueue_request, append_to, room_for, queue_or_refuse, proceed, against_limit,
  refuse_early, check_global_load, finish_direct, check_global_health, shut, priority_safety,
  priority_telemetry, priority_control,
}
use protocol_gateway.Opcua.LoadShaping.Workers.{
  take_safety, take_control, take_telemetry, receive_safety, receive_control, receive_telemetry,
  finish_work,
}
use protocol_gateway.Opcua.LoadShaping.Steps.{Step, Reachable}

-- `telemetry` waits only where its threshold is above the hard limit.
pub record Contained (p : ConnectionPool) : Type 0 where
  pub safety : length p.safety ≤ p.config.priority_queue_size
  pub control : length p.control ≤ p.config.priority_queue_size
  pub telemetry : length p.telemetry ≤ (
      if leb p.config.threshold p.config.max_global_in_flight
      then 0
      else p.config.priority_queue_size)
  pub working : length p.working ≤ p.config.num_workers

-- The pool of a result.
abbrev ContainedAfter : ConnectionPool × Outcome → Type 0
ContainedAfter r = Contained r.0

-- What the bounds speak of.
abbrev lists :
    ConnectionPool
    → ShapingConfig × List OpRequest × List OpRequest × List OpRequest × List OpRequest
lists p = (p.config, p.telemetry, p.control, p.safety, p.working)

kept-Contained :
    {p : ConnectionPool} (q : ConnectionPool) → lists q ≡ lists p → Contained p → Contained q
kept-Contained q e b =
    let config = ap (λ w. w.0) e in
    let telemetry = ap (λ w. w.1) e in
    let control = ap (λ w. w.2) e in
    let safety = ap (λ w. w.3) e in
    let working = ap (λ w. w.4) e in
    record {
      safety = rw (safety, config) b.safety;
      control = rw (control, config) b.control;
      telemetry = rw (telemetry, config) b.telemetry;
      working = rw (working, config) b.working;
    }

length-append_to :
    (here : Bool) (op : OpRequest) (ops : List OpRequest)
    → length (append_to here op ops) ≡ length ops + (if here then 1 else 0)
unfolding append_to
length-append_to true op ops = length-append ops (op ∷ [])
length-append_to false op ops = omega arith

-- Where telemetry gets this far, its threshold is above the hard limit.
enqueue_request-Contained :
    (op : OpRequest) (p : ConnectionPool)
    → room_for op p ≡ some true
    → (op.priority ≡ priority_telemetry → p.config.max_global_in_flight < p.config.threshold)
    → Contained p
    → Contained (enqueue_request op (count_in op p))
unfolding enqueue_request count_in room_for
enqueue_request-Contained op p fits late b =
    let s = length-append_to (op.priority == priority_safety) op p.safety in
    let c = length-append_to (op.priority == priority_control) op p.control in
    let t = length-append_to (op.priority == priority_telemetry) op p.telemetry in
    record {
      safety = ground (arith, fits, s, b.safety);
      control = ground (arith, fits, c, b.control);
      telemetry = ground (arith, fits, t, b.telemetry, late);
      working = b.working;
    }

queue_or_refuse-Contained :
    (op : OpRequest) (p : ConnectionPool)
    → (op.priority ≡ priority_telemetry → p.config.max_global_in_flight < p.config.threshold)
    → Contained p
    → Contained (queue_or_refuse op p).0
unfolding queue_or_refuse count_in count_out
queue_or_refuse-Contained op p late b =
    either_branch ContainedAfter p.closed (λ e. b)
      (λ e. elim (Option-cases (room_for op p)) [
        | inl n ↦ simp n (kept-Contained _ refl b)
        | inr (fits, n) ↦ simp n (
            either_branch ContainedAfter fits
              (λ f. enqueue_request-Contained op p (n ∙ ap some f) late b)
              (λ f. kept-Contained _ refl b))
      ])

against_limit-Contained :
    (r : Readings) (op : OpRequest) (p : ConnectionPool)
    → Contained p
    → Contained (against_limit r op p).0
unfolding against_limit proceed count_in
against_limit-Contained r op p b =
    either_branch ContainedAfter
      (leb p.config.threshold r.global_in_flight && op.priority == priority_telemetry)
      (λ e. kept-Contained _ refl b)
      (λ passed.
        either_branch ContainedAfter (leb p.config.max_global_in_flight r.global_in_flight)
          (λ full. queue_or_refuse-Contained op p (λ t. ground (arith, passed, full, t)) b)
          (λ e. kept-Contained _ refl b))

check_global_load-Contained :
    (r : Readings) (op : OpRequest) (p : ConnectionPool)
    → Contained p
    → Contained (check_global_load r op p).0
unfolding check_global_load
check_global_load-Contained r op p b = elim (Option-cases (refuse_early p.config r op)) [
  | inl n ↦ simp (check_global_load, n) (against_limit-Contained r op p b)
  | inr (e, n) ↦ simp (check_global_load, n) b
]

finish_direct-Contained : (i : ℕ) (p : ConnectionPool) → Contained p → Contained (finish_direct i p)
unfolding finish_direct count_out
finish_direct-Contained i p b = elim (Option-cases (remove_at i p.direct)) [
  | inl n ↦ simp (finish_direct, n) b
  | inr ((op, rest), n) ↦ simp (finish_direct, n) (kept-Contained _ refl b)
]

finish_work-Contained : (i : ℕ) (p : ConnectionPool) → Contained p → Contained (finish_work i p)
unfolding finish_work count_out
finish_work-Contained i p b = elim (Option-cases (remove_at i p.working)) [
  | inl n ↦ simp (finish_work, n) b
  | inr ((op, rest), n) ↦
      simp (finish_work, n)
        (record {
          safety = b.safety;
          control = b.control;
          telemetry = b.telemetry;
          working = omega (arith, b.working, length-remove_at i p.working op rest n);
        })
]

-- A worker that is free receives.
module _ (p : ConnectionPool) (free : length p.working < p.config.num_workers)
    (b : Contained p) where
  receive_safety-Contained :
      (ops : List OpRequest) → p.safety ≡ ops → Contained (receive_safety ops p)
  unfolding receive_safety
  receive_safety-Contained [] e = b
  receive_safety-Contained (op ∷ rest) e = record {
    safety = omega (arith, b.safety, ap length e);
    control = b.control;
    telemetry = b.telemetry;
    working = omega (arith, length-append p.working (op ∷ []));
  }

  receive_control-Contained :
      (ops : List OpRequest) → p.control ≡ ops → Contained (receive_control ops p)
  unfolding receive_control
  receive_control-Contained [] e = b
  receive_control-Contained (op ∷ rest) e = record {
    safety = b.safety;
    control = omega (arith, b.control, ap length e);
    telemetry = b.telemetry;
    working = omega (arith, length-append p.working (op ∷ []));
  }

  receive_telemetry-Contained :
      (ops : List OpRequest) → p.telemetry ≡ ops → Contained (receive_telemetry ops p)
  unfolding receive_telemetry
  receive_telemetry-Contained [] e = b
  receive_telemetry-Contained (op ∷ rest) e = record {
    safety = b.safety;
    control = b.control;
    telemetry = ground (arith, b.telemetry, ap length e);
    working = omega (arith, length-append p.working (op ∷ []));
  }

Step-Contained : {p q : ConnectionPool} → Contained p → Step p q → Contained q
unfolding take_safety take_control take_telemetry check_global_health shut
Step-Contained {p} b (Step.ran i) = finish_direct-Contained i p b
Step-Contained {p} b (Step.took_safety h) = receive_safety-Contained p h b p.safety refl
Step-Contained {p} b (Step.took_control h) = receive_control-Contained p h b p.control refl
Step-Contained {p} b (Step.took_telemetry h) = receive_telemetry-Contained p h b p.telemetry refl
Step-Contained {p} b (Step.finished i) = finish_work-Contained i p b
Step-Contained b Step.watched = kept-Contained _ refl b
Step-Contained b Step.closing = kept-Contained _ refl b

-- In every state that is reached with operations of priorities that are at most that of safety,
-- whatever the calls have read before they count themselves: the queues of safety and of control hold no more than their size, and the workers run no more
-- operations than they are; the queue of telemetry is empty where the brownout's threshold is no
-- higher than the hard limit, and within its size otherwise.
pub Reachable-Contained : {p : ConnectionPool} → Reachable p → Contained p
unfolding new_connection_pool
Reachable-Contained (Reachable.created c) = record {
  safety = omega arith;
  control = omega arith;
  telemetry = ground arith;
  working = omega arith;
}
Reachable-Contained (Reachable.checked m r op h) =
    check_global_load-Contained r op _ (Reachable-Contained m)
Reachable-Contained (Reachable.then m s) = Step-Contained (Reachable-Contained m) s
