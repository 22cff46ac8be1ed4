-- ===== src/Modbus/Errors/Retry.antt =====
-- The search in an error text, and the retry and the quality that depend on it.
use protocol_gateway.Prelude.{
  if◌then◌else◌, ℕ, ◌≡◌, ◌↔◌, refl, ap, true, List, [], ◌∷◌, ◌++◌, ◌==◌, arith, inl, inr,
  Bool-cases, ==_iff, ◌⊎◌,
}
use protocol_gateway.Prelude.Text.{bytes}
use protocol_gateway.Domain.DataPoint.{bad, not_connected}
use protocol_gateway.Modbus.Errors.{
  IoError, io_text, starts_with, occurs, contains, connection_words, is_timeout,
  is_connection_error, is_retryable_error, translate_modbus_error, error_quality,
}

starts_with_sound : (sub s : List ℕ) → starts_with sub s ≡ true → (r : List ℕ) × (s ≡ sub ++ r)
unfolding starts_with
starts_with_sound [] s h = (s, refl)
starts_with_sound (c ∷ sub) [] h = cc
starts_with_sound (c ∷ sub) (d ∷ s) h = elim (Bool-cases (c == d)) [
  | inl e ↦ let (r, k) = starts_with_sound sub s (rw e at h) in (r, ground (arith, ==_iff c d))
  | inr e ↦ cc (rw e at h)
]

starts_with_complete : (sub r : List ℕ) → starts_with sub (sub ++ r) ≡ true
unfolding starts_with
starts_with_complete [] r = refl
starts_with_complete (c ∷ sub) r = ground (arith, starts_with_complete sub r)

occurs_sound :
    (sub s : List ℕ) → occurs sub s ≡ true → (p : List ℕ) × (r : List ℕ) × (s ≡ p ++ (sub ++ r))
unfolding occurs
occurs_sound sub [] h = let (r, e) = starts_with_sound sub [] h in ([], r, e)
occurs_sound sub (c ∷ s) h = elim (Bool-cases (starts_with sub (c ∷ s))) [
  | inl e ↦ let (r, k) = starts_with_sound sub (c ∷ s) e in ([], r, k)
  | inr e ↦ let (p, r, k) = occurs_sound sub s (rw e at h) in (c ∷ p, r, ap (◌∷◌ c) k)
]

occurs_complete : (p sub r : List ℕ) → occurs sub (p ++ (sub ++ r)) ≡ true
unfolding occurs
occurs_complete [] [] [] = refl
occurs_complete [] [] (c ∷ r) = refl
occurs_complete [] (c ∷ sub) r = rw (starts_with_complete (c ∷ sub) r)
occurs_complete (c ∷ p) sub r = ground (arith, occurs_complete p sub r)

-- The search of the loops finds a text exactly when it occurs: `contains` with one text holds if
-- and only if the string is some prefix, the text, and some rest.
pub contains_iff :
    (s sub : List ℕ)
    → (contains s (sub ∷ []) ≡ true) ↔ ((p : List ℕ) × (r : List ℕ) × (s ≡ p ++ (sub ++ r)))
unfolding contains
contains_iff s sub =
    (λ h. occurs_sound sub s (ground arith), λ w. rw w.2 (rw (occurs_complete w.0 sub w.1)))

-- A text with another one in it.
abbrev pub Occurs : List ℕ → List ℕ → Type 0
Occurs sub s = (p : List ℕ) × (r : List ℕ) × (s ≡ p ++ (sub ++ r))

abbrev pub AnyOccurs : List (List ℕ) → List ℕ → Type 0
AnyOccurs [] s = ⊥
AnyOccurs (sub ∷ subs) s = Occurs sub s ⊎ AnyOccurs subs s

pub translated_retry :
    (e : IoError)
    → let c = translate_modbus_error e in
      (is_retryable_error c
        ≡ contains (bytes "read operation failed: " ++ io_text e) connection_words)
      × (error_quality c ≡ (if is_retryable_error c then not_connected else bad))
unfolding translate_modbus_error is_retryable_error is_timeout is_connection_error error_quality
translated_retry e = (refl, ground arith)
