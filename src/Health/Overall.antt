-- ===== src/Health/Overall.antt =====
-- The overall status of a round, over its checks and the order of its goroutines.
use protocol_gateway.Prelude.{
  ℕ, ◌≡◌, ◌+◌, refl, String, List, [], ◌∷◌, Option, none, some, arith, leb, if◌then◌else◌, str_eq,
  Bool, true, false, ◌&&◌, ◌||◌, Option-cases, inl, inr, ◌∙◌, All,
}
use mathlib.Core.List.{Perm, Permᴰ}
use mathlib.Core.Logic.{∥∥₁_elim}
use mathlib.Core.Bool.{Bool-set}
use protocol_gateway.Health.{
  HealthChecker, CheckSeverity, Status, critical, warning, info, healthy, degraded, unhealthy,
  unknown, update_check_status, count_of, is_status, failed_status, passed_status,
}
use protocol_gateway.Health.Flapping.{count_after, count-update, threshold-update}
use protocol_gateway.Health.Rounds.{
  run_checks, run_all, run_check, finish_round, begin_round, Round, Failures, overall_status,
  note_failure,
}
use protocol_gateway.Health.Handlers.{check}

-- The check fails now, for at least the threshold-th time in a row.
unfoldable pub fails_for_good : (String → Option String) → HealthChecker → String → Bool
fails_for_good probe h name = elim (probe name) [
  | none ↦ false
  | some _ ↦ leb h.failure_threshold (count_of name h.failure_counts + 1)
]

unfoldable pub is_severity : CheckSeverity → CheckSeverity → Bool
is_severity info info = true
is_severity warning warning = true
is_severity critical critical = true
is_severity _ _ = false

-- Some check of the severity fails for good.
unfoldable pub any_failure :
    (String → Option String) → HealthChecker → CheckSeverity → List (String × CheckSeverity) → Bool
any_failure probe h s [] = false
any_failure probe h s ((name, t) ∷ cs) =
    (is_severity t s && fails_for_good probe h name) || any_failure probe h s cs

-- No name is registered twice.
unfoldable pub Unique : List (String × CheckSeverity) → Type 0
Unique [] = Unit
Unique ((name, s) ∷ cs) =
    All (λ (c : String × CheckSeverity). str_eq name c.0 ≡ false) cs × Unique cs

is_bad : Status → Bool
unfolding is_status
is_bad c = is_status c unhealthy

update_unhealthy :
    (h : HealthChecker) (name : String) (s : CheckSeverity) (e : Option String) (now : ℕ)
    → is_bad (update_check_status h name s e now).1.status ≡ elim e [
      | none ↦ false
      | some _ ↦ leb h.failure_threshold (count_of name h.failure_counts + 1)
    ]
unfolding update_check_status failed_status passed_status is_bad is_status
update_unhealthy h name s none now = refl
update_unhealthy h name s (some e) now = ground arith

count_after-other :
    (name other : String) (e : Option String) (k : ℕ)
    → str_eq other name ≡ false
    → count_after name other e k ≡ k
unfolding count_after
count_after-other name other none k d = rw d refl
count_after-other name other (some e) k d = rw d refl

update-other :
    (h : HealthChecker) (name other : String) (s : CheckSeverity) (e : Option String) (now : ℕ)
    (probe : String → Option String)
    → str_eq name other ≡ false
    → fails_for_good probe (update_check_status h name s e now).0 other
      ≡ fails_for_good probe h other
unfolding fails_for_good
update-other h name other s e now probe d =
    let a = count-update other name h s e now ∙ count_after-other other name e _ d in
    let b = threshold-update h name s e now in
    elim (Option-cases (probe other)) [
      | inl n ↦ rw (fails_for_good, n) refl
      | inr (x, n) ↦ rw (fails_for_good, n, a, b) refl
    ]

any_failure-update :
    (probe : String → Option String) (h : HealthChecker) (name : String) (s : CheckSeverity)
    (e : Option String) (now : ℕ) (t : CheckSeverity) (cs : List (String × CheckSeverity))
    → All (λ (c : String × CheckSeverity). str_eq name c.0 ≡ false) cs
    → any_failure probe (update_check_status h name s e now).0 t cs ≡ any_failure probe h t cs
unfolding any_failure
any_failure-update probe h name s e now t [] a = refl
any_failure-update probe h name s e now t ((other, u) ∷ cs) (a, b) =
    rw (update-other h name other s e now probe a, any_failure-update probe h name s e now t cs b)
      refl

note_failure_lem :
    (c : Status) (s : CheckSeverity) (f : Failures)
    → ((note_failure c s f).critical_failure
        ≡ ((is_severity s critical && is_bad c) || f.critical_failure))
      × ((note_failure c s f).warning_failure
          ≡ ((is_severity s warning && is_bad c) || f.warning_failure))
unfolding note_failure is_severity is_bad is_status
note_failure_lem unhealthy critical f = (refl, refl)
note_failure_lem unhealthy warning f = (refl, refl)
note_failure_lem unhealthy info f = (refl, refl)
note_failure_lem healthy critical f = (refl, refl)
note_failure_lem healthy warning f = (refl, refl)
note_failure_lem healthy info f = (refl, refl)
note_failure_lem degraded critical f = (refl, refl)
note_failure_lem degraded warning f = (refl, refl)
note_failure_lem degraded info f = (refl, refl)
note_failure_lem unknown critical f = (refl, refl)
note_failure_lem unknown warning f = (refl, refl)
note_failure_lem unknown info f = (refl, refl)

-- The failures that the rest of the round adds to those found so far.
AddsUp : (String → Option String) → List (String × CheckSeverity) → Round → Round → Type 0
AddsUp probe cs r r' =
    (r'.failures.critical_failure
      ≡ (any_failure probe r.checker critical cs || r.failures.critical_failure))
    × (r'.failures.warning_failure
        ≡ (any_failure probe r.checker warning cs || r.failures.warning_failure))

one_more : (a b c : Bool) → ((a && b) || c) ≡ (((a && b) || false) || c)
one_more a b c = ground arith

or_shuffle : (a b c : Bool) → (b || ((a || false) || c)) ≡ ((a || b) || c)
or_shuffle a b c = ground arith

run_check_lem :
    (probe : String → Option String) (now : ℕ) (name : String) (s : CheckSeverity) (r : Round)
    → AddsUp probe ((name, s) ∷ []) r (run_check probe now (name, s) r)
unfolding AddsUp run_check any_failure fails_for_good
run_check_lem probe now name s r =
    let (a, b) =
      note_failure_lem (update_check_status r.checker name s (probe name) now).1.status s
        r.failures in
    let u = update_unhealthy r.checker name s (probe name) now in
    let f = fails_for_good probe r.checker name in
    (
      a ∙ rw u (one_more (is_severity s critical) f r.failures.critical_failure),
      b ∙ rw u (one_more (is_severity s warning) f r.failures.warning_failure),
    )

run_all_lem :
    (probe : String → Option String) (now : ℕ) (cs : List (String × CheckSeverity)) (r : Round)
    → Unique cs
    → AddsUp probe cs r (run_all probe now cs r)
unfolding AddsUp run_all run_check any_failure Unique
run_all_lem probe now [] r u = (refl, refl)
run_all_lem probe now ((name, s) ∷ cs) r (a, u) =
    let r' = run_check probe now (name, s) r in
    let (b, c) = run_check_lem probe now name s r in
    let (d, e) = run_all_lem probe now cs r' u in
    let again =
      λ (t : CheckSeverity). any_failure-update probe r.checker name s (probe name) now t cs a in
    let f = fails_for_good probe r.checker name in
    (
      d
          ∙ rw (b, again critical)
              (or_shuffle (is_severity s critical && f) (any_failure probe r.checker critical cs)
                r.failures.critical_failure),
      e
          ∙ rw (c, again warning)
              (or_shuffle (is_severity s warning && f) (any_failure probe r.checker warning cs)
                r.failures.warning_failure),
    )

or_swap : (a b c : Bool) → (a || (b || c)) ≡ (b || (a || c))
or_swap a b c = ground arith

any_failure-Permᴰ :
    (probe : String → Option String) (h : HealthChecker) (s : CheckSeverity)
    {cs ds : List (String × CheckSeverity)}
    → Permᴰ cs ds
    → any_failure probe h s cs ≡ any_failure probe h s ds
unfolding any_failure
any_failure-Permᴰ probe h s Permᴰ.nil = refl
any_failure-Permᴰ probe h s (Permᴰ.cons e p) = rw (e, any_failure-Permᴰ probe h s p) refl
any_failure-Permᴰ probe h s (Permᴰ.swap {l} d e) = rw (d, e) (or_swap _ _ (any_failure probe h s l))
any_failure-Permᴰ probe h s (Permᴰ.trans p q) =
    any_failure-Permᴰ probe h s p ∙ any_failure-Permᴰ probe h s q

any_failure-Perm :
    (probe : String → Option String) (h : HealthChecker) (s : CheckSeverity)
    {cs ds : List (String × CheckSeverity)}
    → Perm cs ds
    → any_failure probe h s cs ≡ any_failure probe h s ds
any_failure-Perm probe h s p = ∥∥₁_elim p (Bool-set _ _) (any_failure-Permᴰ probe h s)

or_false : (a : Bool) → (a || false) ≡ a
or_false a = ground arith

-- The status that a round publishes, in whatever order its goroutines run over the registered checks,
-- whose names differ: unhealthy if a critical check has now failed at least the threshold number of times
-- in a row, or else degraded if a warning check has, or else healthy.
pub run_checks-status :
    (order : List (String × CheckSeverity) → List (String × CheckSeverity))
    (probe : String → Option String) (now : ℕ) (h : HealthChecker)
    → Unique (order h.checks)
    → Perm (order h.checks) h.checks
    → (check (run_checks order probe now h)).status ≡ (
        if any_failure probe h critical h.checks
        then unhealthy
        else if any_failure probe h warning h.checks
        then degraded
        else healthy)
unfolding check run_checks finish_round overall_status AddsUp
run_checks-status order probe now h u p =
    let (a, b) = run_all_lem probe now (order h.checks) (begin_round h) u in
    rw (a, b, any_failure-Perm probe h critical p, any_failure-Perm probe h warning p)
      (rw
        (
          or_false (any_failure probe h critical h.checks),
          or_false (any_failure probe h warning h.checks),
        )
        refl)
