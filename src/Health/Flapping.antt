-- ===== src/Health/Flapping.antt =====
-- The flapping protection of updateCheckStatus, over any history of results of all checks.
use protocol_gateway.Prelude.{
  ◌==◌, ◌+◌, ℕ, ◌≡◌, ◌<◌, refl, String, List, [], ◌∷◌, Option, none, some, arith, leb,
  if◌then◌else◌, str_eq, eq_iff, Bool, ◌∙◌, Bool-cases, inl, ap, inr,
}
use protocol_gateway.Prelude.Dict.{lookup, lookup-insert}
use protocol_gateway.Health.{
  HealthChecker, CheckSeverity, CheckStatus, unhealthy, update_check_status, was, count_of,
  new_checker, store_status, failed_status, passed_status, is_status, false,
}
use protocol_gateway.Health.Registry.{add_check_with_severity}

-- A result of a check: its name, its severity, the error and the time.
pub record Observation : Type 0 where
  pub name : String
  pub severity : CheckSeverity
  pub error : Option String
  pub time : ℕ

unfoldable pub observe : HealthChecker → Observation → HealthChecker
observe h o = (update_check_status h o.name o.severity o.error o.time).0

unfoldable pub observe_all : HealthChecker → List Observation → HealthChecker
observe_all h [] = h
observe_all h (o ∷ os) = observe_all (observe h o) os

-- The errors of `name` since its last success, where `k` came before the history.
unfoldable pub streak : String → ℕ → List Observation → ℕ
streak name k [] = k
streak name k (o ∷ os) =
    streak name (if str_eq o.name name then elim o.error [ none ↦ 0 | some _ ↦ k + 1 ] else k) os

unfoldable pub is_unhealthy : String → HealthChecker → Bool
unfolding was
is_unhealthy name h = was unhealthy (lookup name h.statuses)

-- The stored status and the failure count of a check tell the same.
record Agree (name : String) (h : HealthChecker) : Type 0 where
  threshold_set : 0 < h.failure_threshold
  status_agrees : is_unhealthy name h ≡ leb h.failure_threshold (count_of name h.failure_counts)

unfoldable pub count_after : String → String → Option String → ℕ → ℕ
count_after name other none k = if str_eq other name then 0 else k
count_after name other (some e) k = if str_eq other name then k + 1 else k

pub count-update :
    (name other : String) (h : HealthChecker) (s : CheckSeverity) (e : Option String) (now : ℕ)
    → count_of name (update_check_status h other s e now).0.failure_counts
      ≡ count_after name other e (count_of name h.failure_counts)
unfolding update_check_status store_status count_after
count-update name other h s none now = ground (arith, lookup-insert other name 0 h.failure_counts)
count-update name other h s (some e) now = ground (
  arith,
  eq_iff other name,
  lookup-insert other name (count_of other h.failure_counts + 1) h.failure_counts,
)

failed-was_unhealthy :
    (threshold : ℕ) (s : CheckSeverity) (old : Option CheckStatus) (fails : ℕ) (e : String)
    (now : ℕ)
    → was unhealthy (some (failed_status threshold s old fails e now)) ≡ leb threshold fails
unfolding failed_status was is_status
failed-was_unhealthy threshold s old fails e now = ground arith

pub threshold-update :
    (h : HealthChecker) (n : String) (s : CheckSeverity) (e : Option String) (now : ℕ)
    → (update_check_status h n s e now).0.failure_threshold ≡ h.failure_threshold
unfolding update_check_status store_status
threshold-update h n s none now = refl
threshold-update h n s (some e) now = refl

count_after-elim :
    (name other : String) (e : Option String) (k : ℕ)
    → count_after name other e k
      ≡ (if str_eq other name then elim e [ none ↦ 0 | some _ ↦ k + 1 ] else k)
unfolding count_after
count_after-elim name other none k = refl
count_after-elim name other (some e) k = refl

count-observe :
    (name : String) (h : HealthChecker) (o : Observation)
    → count_of name (observe h o).failure_counts ≡ (
        if str_eq o.name name
        then elim o.error [ none ↦ 0 | some _ ↦ count_of name h.failure_counts + 1 ]
        else count_of name h.failure_counts)
unfolding observe
count-observe name h o =
    count-update name o.name h o.severity o.error o.time
    ∙ count_after-elim name o.name o.error (count_of name h.failure_counts)

Agree-update :
    (name other : String) (h : HealthChecker) (s : CheckSeverity) (e : Option String) (now : ℕ)
    → Agree name h
    → Agree name (update_check_status h other s e now).0
unfolding update_check_status store_status is_unhealthy count_after
Agree-update name other h s none now a =
    let k = count_of other h.failure_counts in
    let c = passed_status h.failure_threshold s (lookup other h.statuses) k now in
    record {
      threshold_set = a.threshold_set;
      status_agrees =
          rw (lookup-insert other name c h.statuses, count-update name other h s none now)
            (elim (Bool-cases (str_eq other name)) [
              | inl b ↦ rw b (let p = a.threshold_set in ground arith)
              | inr b ↦ rw b a.status_agrees
            ]);
    }
Agree-update name other h s (some e) now a =
    let k = count_of other h.failure_counts + 1 in
    let c = failed_status h.failure_threshold s (lookup other h.statuses) k e now in
    record {
      threshold_set = a.threshold_set;
      status_agrees =
          rw (lookup-insert other name c h.statuses, count-update name other h s (some e) now)
            (elim (Bool-cases (str_eq other name)) [
              | inl b ↦ rw b (
                  failed-was_unhealthy h.failure_threshold s (lookup other h.statuses) k e now
                  ∙ ap (λ (n : String). leb h.failure_threshold (count_of n h.failure_counts + 1))
                      ((eq_iff other name).0 b))
              | inr b ↦ rw b a.status_agrees
            ]);
    }

Agree-observe_all :
    (name : String) (h : HealthChecker) (os : List Observation)
    → Agree name h
    → Agree name (observe_all h os)
      × (count_of name (observe_all h os).failure_counts
          ≡ streak name (count_of name h.failure_counts) os)
      × ((observe_all h os).failure_threshold ≡ h.failure_threshold)
unfolding observe_all observe streak
Agree-observe_all name h [] a = (a, refl, refl)
Agree-observe_all name h (o ∷ os) a =
    let (b, c, d) =
      Agree-observe_all name (observe h o) os
        (Agree-update name o.name h o.severity o.error o.time a) in
    (
      b,
      c ∙ ap (λ (k : ℕ). streak name k os) (count-observe name h o),
      d ∙ threshold-update h o.name o.severity o.error o.time,
    )

-- Several checks registered, one after the other.
unfoldable pub register : HealthChecker → List (String × CheckSeverity) → HealthChecker
register h [] = h
register h ((name, s) ∷ cs) = register (add_check_with_severity h name s) cs

register-fresh :
    (name : String) (h : HealthChecker) (cs : List (String × CheckSeverity))
    → is_unhealthy name h ≡ false
    → (is_unhealthy name (register h cs) ≡ false)
      × ((register h cs).failure_counts ≡ h.failure_counts)
      × ((register h cs).failure_threshold ≡ h.failure_threshold)
unfolding register add_check_with_severity is_unhealthy was is_status
register-fresh name h [] e = (e, refl, refl)
register-fresh name h ((n, s) ∷ cs) e = register-fresh name (add_check_with_severity h n s) cs (
    rw (lookup-insert n name _ h.statuses)
      (elim (Bool-cases (str_eq n name)) [ inl b ↦ rw b refl | inr b ↦ rw b e ]))

register-new_checker :
    (name : String) (f r now : ℕ) (cs : List (String × CheckSeverity))
    → Agree name (register (new_checker f r now) cs)
unfolding new_checker lookup is_unhealthy was
register-new_checker name f r now cs =
    let (a, b, c) = register-fresh name (new_checker f r now) cs refl in
    record { threshold_set = rw c (ground arith); status_agrees = rw (a, b, c) (ground arith) }

-- A check is reported unhealthy, after any history of results of any checks, exactly when it failed at
-- least the threshold number of times (3 if that is configured as 0) since its last success.
pub unhealthy-streak :
    (failure_threshold recovery_threshold now : ℕ) (cs : List (String × CheckSeverity))
    (os : List Observation) (name : String)
    → is_unhealthy name
        (observe_all (register (new_checker failure_threshold recovery_threshold now) cs) os)
      ≡ leb (if failure_threshold == 0 then 3 else failure_threshold) (streak name 0 os)
unfolding new_checker lookup is_unhealthy was
unhealthy-streak f r now cs os name =
    let h = register (new_checker f r now) cs in
    let (a, b, c) = Agree-observe_all name h os (register-new_checker name f r now cs) in
    let (_, e, t) = register-fresh name (new_checker f r now) cs refl in
    rw (a.status_agrees, c, b, e, t) refl

recovery-update :
    (h : HealthChecker) (r : ℕ) (n : String) (s : CheckSeverity) (e : Option String) (now : ℕ)
    → (update_check_status (record h { recovery_threshold = r }) n s e now).0
      ≡ record (update_check_status h n s e now).0 { recovery_threshold = r }
unfolding update_check_status store_status
recovery-update h r n s none now = refl
recovery-update h r n s (some e) now = refl

-- The configured recovery threshold has no effect on any history of results: with another one, the
-- checker holds the same statuses, counts and everything else.
pub recovery_threshold-unused :
    (h : HealthChecker) (r : ℕ) (os : List Observation)
    → observe_all (record h { recovery_threshold = r }) os
      ≡ record (observe_all h os) { recovery_threshold = r }
unfolding observe_all observe
recovery_threshold-unused h r [] = refl
recovery_threshold-unused h r (o ∷ os) =
    ap (λ (g : HealthChecker). observe_all g os)
      (recovery-update h r o.name o.severity o.error o.time)
    ∙ recovery_threshold-unused (observe h o) r os
