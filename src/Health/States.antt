-- ===== src/Health/States.antt =====
-- The operational states, over the life of a checker: which rounds, registrations and calls of
-- Start and Stop lead where.
use protocol_gateway.Prelude.{
  ◌||◌, ℕ, ◌≡◌, ◌≤◌, refl, String, List, [], ◌∷◌, Option, arith, if◌then◌else◌, Bool, true, false,
  ◌∙◌, Option-cases, inl, inr, ap, Bool-cases, sym,
}
use protocol_gateway.Health.{
  HealthChecker, CheckSeverity, Status, OperationalState, healthy, new_checker, next_state,
  same_state, set_state, on_state_change, update_operational_state, update_check_status,
  store_status, leb,
}
use protocol_gateway.Health.Rounds.{
  begin_round, run_checks, run_all, run_check, finish_round, Round, overall_status,
}
use protocol_gateway.Health.Registry.{
  add_check_with_severity, remove_check, start, begin_stop, finish_stop,
}
use protocol_gateway.Health.Handlers.{liveness_handler, check}

-- One call, or one round of the loop. What Stop does is two steps: a round may come between them.
-- SetState is exported, and it is a step only where Stop calls it: nothing else in the repository does.
pub data Step : HealthChecker → HealthChecker → Type 0 where
  round :
      {h : HealthChecker} (order : List (String × CheckSeverity) → List (String × CheckSeverity))
      (probe : String → Option String) (now : ℕ)
      → Step h (run_checks order probe now h)
  added :
      {h : HealthChecker} (name : String) (s : CheckSeverity)
      → Step h (add_check_with_severity h name s)
  removed : {h : HealthChecker} (name : String) → Step h (remove_check h name)
  listened : {h : HealthChecker} → Step h (on_state_change h)
  started : {h : HealthChecker} → Step h (start h)
  stopping : {h : HealthChecker} (now : ℕ) → h.started ≡ true → Step h (begin_stop h now)
  stopped :
      {h : HealthChecker} (now : ℕ)
      → h.started ≡ true
      → h.stopped ≡ true
      → Step h (finish_stop h now)

pub data Reachable : HealthChecker → Type 0 where
  created : (f r now : ℕ) → Reachable (new_checker f r now)
  then : {h k : HealthChecker} → Reachable h → Step h k → Reachable k

-- 0 while the checker works, 1 while it shuts down, 2 once it is offline.
unfoldable pub stage : OperationalState → ℕ
stage OperationalState.shutting_down = 1
stage OperationalState.offline = 2
stage _ = 0

stage-next_state : (s : OperationalState) (t : Status) → stage (next_state s t) ≡ stage s
unfolding stage next_state
stage-next_state s t = ground arith

run_check-state :
    (probe : String → Option String) (now : ℕ) (c : String × CheckSeverity) (r : Round)
    → ((run_check probe now c r).checker.state ≡ r.checker.state)
      × ((run_check probe now c r).checker.stopped ≡ r.checker.stopped)
unfolding run_check update_check_status store_status
run_check-state probe now (n, s) r = elim (Option-cases (probe n)) [
  | inl e ↦ rw e (refl, refl)
  | inr (x, e) ↦ rw e (refl, refl)
]

run_all-state :
    (probe : String → Option String) (now : ℕ) (cs : List (String × CheckSeverity)) (r : Round)
    → ((run_all probe now cs r).checker.state ≡ r.checker.state)
      × ((run_all probe now cs r).checker.stopped ≡ r.checker.stopped)
unfolding run_all
run_all-state probe now [] r = (refl, refl)
run_all-state probe now (c ∷ cs) r =
    let (a, b) = run_check-state probe now c r in
    let (d, e) = run_all-state probe now cs (run_check probe now c r) in (d ∙ a, e ∙ b)

-- stopOnce has run exactly when the state is shutting_down or offline.
Matches : HealthChecker → Type 0
unfolding stage
Matches h = h.stopped ≡ leb 1 (stage h.state)

round-state :
    (order : List (String × CheckSeverity) → List (String × CheckSeverity))
    (probe : String → Option String) (now : ℕ) (h : HealthChecker)
    → (stage (run_checks order probe now h).state ≡ stage h.state)
      × ((run_checks order probe now h).stopped ≡ h.stopped)
unfolding run_checks finish_round update_operational_state
round-state order probe now h =
    let r = run_all probe now (order h.checks) (begin_round h) in
    let (a, b) = run_all-state probe now (order h.checks) (begin_round h) in
    (stage-next_state r.checker.state (overall_status r.failures) ∙ ap stage a, b)

same_state-eq : (s t : OperationalState) → same_state s t ≡ true → s ≡ t
unfolding same_state
same_state-eq s t h = ground arith

set_state_lem :
    (h : HealthChecker) (s : OperationalState) (now : ℕ)
    → ((set_state h s now).state ≡ s) × ((set_state h s now).stopped ≡ h.stopped)
unfolding set_state
set_state_lem h s now = elim (Bool-cases (same_state h.state s)) [
  | inl b ↦ simp b (same_state-eq h.state s b, refl)
  | inr b ↦ simp b (refl, refl)
]

start_lem : (h : HealthChecker) → ((start h).state ≡ h.state) × ((start h).stopped ≡ h.stopped)
unfolding start
start_lem h = elim (Bool-cases h.started) [
  | inl b ↦ simp b (refl, refl)
  | inr b ↦ simp b (refl, refl)
]

stage-bound : (s : OperationalState) → stage s ≤ 2
unfolding stage
stage-bound s = ground arith

stage-idle : (h : HealthChecker) → Matches h → h.stopped ≡ false → stage h.state ≤ 1
unfolding Matches
stage-idle h m b = ground arith

begin_stop_lem :
    (h : HealthChecker) (now : ℕ)
    → Matches h
    → (stage h.state ≤ stage (begin_stop h now).state) × Matches (begin_stop h now)
unfolding begin_stop Matches stage
begin_stop_lem h now m = elim (Bool-cases h.stopped) [
  | inl b ↦ simp b (omega arith, sym b ∙ m)
  | inr b ↦
      let (a, c) = set_state_lem h OperationalState.shutting_down now in
      simp (b, a) ((stage-idle h m b), refl)
]

-- A step keeps the match and never goes back to an earlier stage.
Step-Matches :
    {h k : HealthChecker} → Matches h → Step h k → (stage h.state ≤ stage k.state) × Matches k
unfolding Matches add_check_with_severity remove_check on_state_change finish_stop
Step-Matches m (Step.round {h} order probe now) =
    let (a, b) = round-state order probe now h in (rw a (omega arith), rw (a, b) m)
Step-Matches {h} m (Step.added name s) = (omega arith, m)
Step-Matches {h} m (Step.removed name) = (omega arith, m)
Step-Matches {h} m Step.listened = (omega arith, m)
Step-Matches {h} m Step.started = let (a, b) = start_lem h in (rw a (omega arith), rw (a, b) m)
Step-Matches {h} m (Step.stopping now e) = begin_stop_lem h now m
Step-Matches {h} m (Step.stopped now e f) =
    let (a, b) = set_state_lem h OperationalState.offline now in
    (rw a (stage-bound h.state), rw (a, b) f)

pub data Steps (h : HealthChecker) : HealthChecker → Type 0 where
  done : Steps h h
  more : {k l : HealthChecker} → Steps h k → Step k l → Steps h l

Reachable-Matches : {h : HealthChecker} → Reachable h → Matches h
unfolding Matches new_checker stage
Reachable-Matches (Reachable.created f r now) = refl
Reachable-Matches (Reachable.then r s) = (Step-Matches (Reachable-Matches r) s).1

Steps-Matches :
    {h k : HealthChecker} → Matches h → Steps h k → (stage h.state ≤ stage k.state) × Matches k
Steps-Matches m Steps.done = (omega arith, m)
Steps-Matches m (Steps.more r s) =
    let (a, n) = Steps-Matches m r in let (b, o) = Step-Matches n s in (omega arith, o)

-- Whatever rounds, registrations and calls of Start and Stop follow each other, without a call of
-- SetState from outside of Stop, the state never goes back from shutting down or offline to an earlier
-- stage.
pub Steps-stage : {h k : HealthChecker} → Reachable h → Steps h k → stage h.state ≤ stage k.state
Steps-stage r s = (Steps-Matches (Reachable-Matches r) s).0

is_down-stage :
    (s : OperationalState)
    → (same_state s OperationalState.offline || same_state s OperationalState.shutting_down)
      ≡ leb 1 (stage s)
unfolding same_state stage
is_down-stage s = ground arith

-- After any rounds, registrations and removals of checks, listeners, and calls of Start and Stop, and
-- without a call of SetState from outside of Stop, the liveness probe of a checker answers 503 exactly
-- when its stopOnce has run.
pub liveness-stopped :
    {h : HealthChecker} → Reachable h → liveness_handler h ≡ (if h.stopped then 503 else 200)
unfolding liveness_handler same_state Matches stage
liveness-stopped r =
    let m = Reachable-Matches r in
    ap (λ (b : Bool). if b then 503 else 200) (is_down-stage _ ∙ sym m)

run_checks-state :
    (order : List (String × CheckSeverity) → List (String × CheckSeverity))
    (probe : String → Option String) (now : ℕ) (h : HealthChecker)
    → (run_checks order probe now h).state
      ≡ next_state h.state (check (run_checks order probe now h)).status
unfolding run_checks finish_round update_operational_state check
run_checks-state order probe now h =
    let (a, b) = run_all-state probe now (order h.checks) (begin_round h) in
    ap
      (λ (s : OperationalState).
        next_state s (overall_status (run_all probe now (order h.checks) (begin_round h)).failures))
      a

two_steps :
    (s t : Status)
    → next_state (next_state OperationalState.degraded s) t ≡ OperationalState.running
    → (s ≡ healthy) × (t ≡ healthy)
unfolding next_state
two_steps s t e = ground arith

-- A service that is degraded is running again only after two rounds in a row without a failure that counts.
pub degraded-running :
    (order : List (String × CheckSeverity) → List (String × CheckSeverity))
    (first second : String → Option String) (now later : ℕ) (h : HealthChecker)
    → h.state ≡ OperationalState.degraded
    → let k = run_checks order first now h in
      let l = run_checks order second later k in
      l.state ≡ OperationalState.running
      → ((check k).status ≡ healthy) × ((check l).status ≡ healthy)
degraded-running order first second now later h d e =
    let k = run_checks order first now h in
    let l = run_checks order second later k in
    let a = run_checks-state order first now h in
    let b = run_checks-state order second later k in
    let after_first : OperationalState → OperationalState = λ s. next_state s (check k).status in
    let after_second : OperationalState → OperationalState = λ s. next_state s (check l).status in
    two_steps (check k).status (check l).status
      (sym (b ∙ ap after_second (a ∙ ap after_first d)) ∙ e)
