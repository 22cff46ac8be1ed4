-- ===== src/Opcua/LoadShaping/Accounting.antt =====
-- The counters of internal/adapter/opcua/loadshaping.go against the operations that are under way.
use protocol_gateway.Prelude.{
  ℕ, ◌+◌, ◌-◌, ◌≤◌, ◌≡◌, ◌≢◌, refl, ap, String, List, [], ◌∷◌, ◌++◌, none, some, Option-cases, inl,
  inr, remove_at, sum-remove_at, either_branch, ◌&&◌, ◌==◌, arith,
}
use protocol_gateway.Opcua.LoadShaping.{
  OpRequest, ConnectionPool, Readings, Outcome, share, new_connection_pool, count_in, count_out,
  enqueue_request, append_to, room_for, queue_or_refuse, proceed, against_limit, refuse_early,
  check_global_load, finish_direct, check_global_health, shut, priority_safety, priority_telemetry,
  leb,
}
use protocol_gateway.Opcua.LoadShaping.Workers.{
  take_safety, take_control, take_telemetry, receive_safety, receive_control, receive_telemetry,
  finish_work,
}
use protocol_gateway.Opcua.LoadShaping.Steps.{Step, Reachable}

-- What the operations of a list weigh together.
abbrev pub total : (OpRequest → ℕ) → List OpRequest → ℕ
total f [] = 0
total f (op ∷ ops) = f op + total f ops

-- What is queued and what runs.
abbrev pub held : (OpRequest → ℕ) → ConnectionPool → ℕ
held f p =
    total f p.telemetry
    + total f p.control
    + total f p.safety
    + total f p.direct
    + total f p.working

pub record Accounted (p : ConnectionPool) : Type 0 where
  pub global : p.global_in_flight ≡ held (λ op. 1) p
  pub endpoint : (k : String) → p.in_flight k ≡ held (share k) p

-- The pool of a result.
abbrev AccountedAfter : ConnectionPool × Outcome → Type 0
AccountedAfter r = Accounted r.0

module _ (f : OpRequest → ℕ) where
  total-append :
      (ops : List OpRequest) (op : OpRequest) → total f (ops ++ op ∷ []) ≡ total f ops + f op
  total-append [] op = omega arith
  total-append (x ∷ xs) op = omega (arith, total-append xs op)

  total-remove_at :
      (i : ℕ) (ops : List OpRequest) (op : OpRequest) (rest : List OpRequest)
      → remove_at i ops ≡ some (op, rest)
      → total f ops ≡ f op + total f rest
  total-remove_at = sum-remove_at f (total f) (λ op ops. refl)

  held-enqueue_request :
      (op : OpRequest) (p : ConnectionPool)
      → op.priority ≤ priority_safety
      → held f (enqueue_request op p) ≡ held f p + f op
  unfolding enqueue_request append_to
  held-enqueue_request op p h =
      ground
        (arith, total-append p.telemetry op, total-append p.control op, total-append p.safety op)

  held-receive_safety :
      (ops : List OpRequest) (p : ConnectionPool)
      → p.safety ≡ ops
      → held f (receive_safety ops p) ≡ held f p
  unfolding receive_safety
  held-receive_safety [] p e = refl
  held-receive_safety (op ∷ rest) p e = omega (arith, total-append p.working op, ap (total f) e)

  held-receive_control :
      (ops : List OpRequest) (p : ConnectionPool)
      → p.control ≡ ops
      → held f (receive_control ops p) ≡ held f p
  unfolding receive_control
  held-receive_control [] p e = refl
  held-receive_control (op ∷ rest) p e = omega (arith, total-append p.working op, ap (total f) e)

  held-receive_telemetry :
      (ops : List OpRequest) (p : ConnectionPool)
      → p.telemetry ≡ ops
      → held f (receive_telemetry ops p) ≡ held f p
  unfolding receive_telemetry
  held-receive_telemetry [] p e = refl
  held-receive_telemetry (op ∷ rest) p e = omega (arith, total-append p.working op, ap (total f) e)

-- One operation more, or one less, in the counters and in what they count.
added-Accounted :
    (op : OpRequest) (p q : ConnectionPool)
    → q.global_in_flight ≡ p.global_in_flight + 1
    → ((k : String) → q.in_flight k ≡ p.in_flight k + share k op)
    → ((f : OpRequest → ℕ) → held f q ≡ held f p + f op)
    → Accounted p
    → Accounted q
added-Accounted op p q g e h a = record {
  global = omega (arith, g, a.global, h (λ op. 1));
  endpoint = λ k. omega (arith, e k, a.endpoint k, h (share k));
}

removed-Accounted :
    (op : OpRequest) (p q : ConnectionPool)
    → q.global_in_flight ≡ p.global_in_flight - 1
    → ((k : String) → q.in_flight k ≡ p.in_flight k - share k op)
    → ((f : OpRequest → ℕ) → held f p ≡ f op + held f q)
    → Accounted p
    → Accounted q
removed-Accounted op p q g e h a = record {
  global = omega (arith, g, a.global, h (λ op. 1));
  endpoint = λ k. omega (arith, e k, a.endpoint k, h (share k));
}

moved-Accounted :
    (p q : ConnectionPool)
    → q.global_in_flight ≡ p.global_in_flight
    → ((k : String) → q.in_flight k ≡ p.in_flight k)
    → ((f : OpRequest → ℕ) → held f q ≡ held f p)
    → Accounted p
    → Accounted q
moved-Accounted p q g e h a = record {
  global = omega (arith, g, a.global, h (λ op. 1));
  endpoint = λ k. omega (arith, e k, a.endpoint k, h (share k));
}

room_for-known :
    (op : OpRequest) (p : ConnectionPool) → op.priority ≤ priority_safety → room_for op p ≢ none
unfolding room_for
room_for-known op p h e = ground (arith, e)

queue_or_refuse-Accounted :
    (op : OpRequest) (p : ConnectionPool)
    → op.priority ≤ priority_safety
    → Accounted p
    → Accounted (queue_or_refuse op p).0
unfolding queue_or_refuse count_in count_out
queue_or_refuse-Accounted op p h a =
    either_branch AccountedAfter p.closed (λ e. a)
      (λ e. elim (Option-cases (room_for op p)) [
        | inl n ↦ absurd (room_for-known op p h n)
        | inr (fits, n) ↦ simp n (
            either_branch AccountedAfter fits
              (λ e.
                added-Accounted op p _ refl (λ k. refl)
                  (λ f. held-enqueue_request f op (count_in op p) h) a)
              (λ e. moved-Accounted p _ (omega arith) (λ k. omega arith) (λ f. refl) a))
      ])

proceed-Accounted :
    (r : Readings) (op : OpRequest) (p : ConnectionPool)
    → Accounted p
    → Accounted (proceed r op p).0
unfolding proceed count_in
proceed-Accounted r op p a =
    added-Accounted op p _ refl (λ k. refl) (λ f. omega (arith, total-append f p.direct op)) a

against_limit-Accounted :
    (r : Readings) (op : OpRequest) (p : ConnectionPool)
    → op.priority ≤ priority_safety
    → Accounted p
    → Accounted (against_limit r op p).0
unfolding against_limit
against_limit-Accounted r op p h a =
    either_branch AccountedAfter
      (leb p.config.threshold r.global_in_flight && op.priority == priority_telemetry)
      (λ e. moved-Accounted p _ refl (λ k. refl) (λ f. refl) a)
      (λ e.
        either_branch AccountedAfter (leb p.config.max_global_in_flight r.global_in_flight)
          (λ e. queue_or_refuse-Accounted op p h a) (λ e. proceed-Accounted r op p a))

check_global_load-Accounted :
    (r : Readings) (op : OpRequest) (p : ConnectionPool)
    → op.priority ≤ priority_safety
    → Accounted p
    → Accounted (check_global_load r op p).0
unfolding check_global_load
check_global_load-Accounted r op p h a = elim (Option-cases (refuse_early p.config r op)) [
  | inl n ↦ simp (check_global_load, n) (against_limit-Accounted r op p h a)
  | inr (e, n) ↦ simp (check_global_load, n) a
]

finish_direct-Accounted : (i : ℕ) (p : ConnectionPool) → Accounted p → Accounted (finish_direct i p)
unfolding finish_direct count_out
finish_direct-Accounted i p a = elim (Option-cases (remove_at i p.direct)) [
  | inl n ↦ simp (finish_direct, n) a
  | inr ((op, rest), n) ↦
      simp (finish_direct, n)
        (removed-Accounted op p _ refl (λ k. refl)
          (λ f. omega (arith, total-remove_at f i p.direct op rest n)) a)
]

finish_work-Accounted : (i : ℕ) (p : ConnectionPool) → Accounted p → Accounted (finish_work i p)
unfolding finish_work count_out
finish_work-Accounted i p a = elim (Option-cases (remove_at i p.working)) [
  | inl n ↦ simp (finish_work, n) a
  | inr ((op, rest), n) ↦
      simp (finish_work, n)
        (removed-Accounted op p _ refl (λ k. refl)
          (λ f. omega (arith, total-remove_at f i p.working op rest n)) a)
]

receive_safety-Accounted :
    (ops : List OpRequest) (p : ConnectionPool)
    → p.safety ≡ ops
    → Accounted p
    → Accounted (receive_safety ops p)
unfolding receive_safety
receive_safety-Accounted [] p e a = a
receive_safety-Accounted (op ∷ rest) p e a =
    moved-Accounted p _ refl (λ k. refl) (λ f. held-receive_safety f (op ∷ rest) p e) a

receive_control-Accounted :
    (ops : List OpRequest) (p : ConnectionPool)
    → p.control ≡ ops
    → Accounted p
    → Accounted (receive_control ops p)
unfolding receive_control
receive_control-Accounted [] p e a = a
receive_control-Accounted (op ∷ rest) p e a =
    moved-Accounted p _ refl (λ k. refl) (λ f. held-receive_control f (op ∷ rest) p e) a

receive_telemetry-Accounted :
    (ops : List OpRequest) (p : ConnectionPool)
    → p.telemetry ≡ ops
    → Accounted p
    → Accounted (receive_telemetry ops p)
unfolding receive_telemetry
receive_telemetry-Accounted [] p e a = a
receive_telemetry-Accounted (op ∷ rest) p e a =
    moved-Accounted p _ refl (λ k. refl) (λ f. held-receive_telemetry f (op ∷ rest) p e) a

Step-Accounted : {p q : ConnectionPool} → Accounted p → Step p q → Accounted q
unfolding take_safety take_control take_telemetry receive_safety receive_control receive_telemetry
    check_global_health shut
Step-Accounted {p} a (Step.ran i) = finish_direct-Accounted i p a
Step-Accounted {p} a (Step.took_safety h) = receive_safety-Accounted p.safety p refl a
Step-Accounted {p} a (Step.took_control h) = receive_control-Accounted p.control p refl a
Step-Accounted {p} a (Step.took_telemetry h) = receive_telemetry-Accounted p.telemetry p refl a
Step-Accounted {p} a (Step.finished i) = finish_work-Accounted i p a
Step-Accounted {p} a Step.watched = moved-Accounted p _ refl (λ k. refl) (λ f. refl) a
Step-Accounted {p} a Step.closing = moved-Accounted p _ refl (λ k. refl) (λ f. refl) a

-- In every state that calls, workers, the health check and Close reach, if the priorities of the
-- operations that are called for are at most that of safety, and whatever the calls have read before
-- they count themselves: the global counter is the number of operations that wait in a queue
-- or run, and the counter of each session is the number of those that are on it.
pub Reachable-Accounted : {p : ConnectionPool} → Reachable p → Accounted p
unfolding new_connection_pool
Reachable-Accounted (Reachable.created c) = record { global = refl; endpoint = λ k. refl }
Reachable-Accounted (Reachable.checked reach r op h) =
    check_global_load-Accounted r op _ h (Reachable-Accounted reach)
Reachable-Accounted (Reachable.then r s) = Step-Accounted (Reachable-Accounted r) s
