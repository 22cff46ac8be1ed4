-- ===== src/S7/Address/Decimal.antt =====
-- Decimal numbers in the addresses of internal/adapter/s7/client.go.
use protocol_gateway.Prelude.{
  ℕ, zero, suc, ◌+◌, ◌-◌, ◌/◌, ◌%◌, ◌^◌, ◌<◌, ◌≡◌, refl, min, true, false, ltb, List, [], ◌∷◌, ◌++◌,
  arith, All, if◌then◌else◌, Bool-cases, inl, inr, ap, ◌∙◌,
}
use protocol_gateway.S7.Address.{is_digit, span_digits, value_from, atoi}

-- The digits of a number, before those of `rest`.
show_before : ℕ → ℕ → List ℕ → List ℕ
show_before zero n rest = rest
show_before (suc fuel) n rest =
    let longer = show_before fuel (n / 10) ((n % 10 + 0x30) ∷ rest) in
    if ltb n 10 then (n + 0x30) ∷ rest else longer

-- A number as it is printed: the fuel is one more than the number.
unfoldable pub show : ℕ → List ℕ
unfolding show_before
show n = show_before (suc n) n []

abbrev pub Digits : List ℕ → Type 0
Digits = All (λ c. is_digit c ≡ true)

Digits-show_before : (fuel n : ℕ) (rest : List ℕ) → Digits rest → Digits (show_before fuel n rest)
unfolding show_before
Digits-show_before zero n rest h = h
Digits-show_before (suc fuel) n rest h = elim (Bool-cases (ltb n 10)) [
  | inl small ↦ rw small (ground arith, h)
  | inr large ↦
      rw large (Digits-show_before fuel (n / 10) ((n % 10 + 0x30) ∷ rest) (ground arith, h))
]

pub Digits-show : (n : ℕ) → Digits (show n)
unfolding show
Digits-show n = Digits-show_before (suc n) n [] tt

value_from-show_before :
    (fuel n : ℕ) (rest : List ℕ)
    → n < fuel
    → value_from 0 (show_before fuel n rest) ≡ value_from n rest
unfolding show_before value_from
value_from-show_before zero n rest h = absurd (ground (arith, h))
value_from-show_before (suc fuel) n rest h = elim (Bool-cases (ltb n 10)) [
  | inl small ↦ rw small (ap (λ (k : ℕ). value_from k rest) (omega arith))
  | inr large ↦ rw large (
      value_from-show_before fuel (n / 10) ((n % 10 + 0x30) ∷ rest) (ground arith)
      ∙ ap (λ (k : ℕ). value_from k rest) (omega arith))
]

pub atoi-show : (n : ℕ) → n < 2 ^ 63 → atoi (show n) ≡ n
unfolding atoi show value_from
atoi-show n h =
    let e = value_from-show_before (suc n) n [] (omega arith) in
    ap (λ (k : ℕ). min k (2 ^ 63 - 1)) e ∙ ground arith

show-nonempty_from :
    (fuel n : ℕ) (rest : List ℕ)
    → (c : ℕ) × (cs : List ℕ) × (show_before (suc fuel) n rest ≡ c ∷ cs)
unfolding show_before
show-nonempty_from zero n rest = elim (Bool-cases (ltb n 10)) [
  | inl small ↦ (n + 0x30, rest, rw small refl)
  | inr large ↦ (n % 10 + 0x30, rest, rw large refl)
]
show-nonempty_from (suc fuel) n rest = elim (Bool-cases (ltb n 10)) [
  | inl small ↦ (n + 0x30, rest, rw small refl)
  | inr large ↦
      let (c, cs, e) = show-nonempty_from fuel (n / 10) ((n % 10 + 0x30) ∷ rest) in
      (c, cs, rw large e)
]

pub show-cons : (n : ℕ) → (c : ℕ) × (cs : List ℕ) × (show n ≡ c ∷ cs)
unfolding show
show-cons n = show-nonempty_from n n []

-- What follows a number is not a digit.
abbrev pub StartsBare : List ℕ → Type 0
StartsBare [] = Unit
StartsBare (c ∷ cs) = is_digit c ≡ false

span_digits-bare : (rest : List ℕ) → StartsBare rest → span_digits rest ≡ ([], rest)
unfolding span_digits
span_digits-bare [] h = refl
span_digits-bare (c ∷ cs) h = rw h refl

pub span_digits-append :
    (ds rest : List ℕ) → Digits ds → StartsBare rest → span_digits (ds ++ rest) ≡ (ds, rest)
unfolding span_digits
span_digits-append [] rest h b = span_digits-bare rest b
span_digits-append (d ∷ ds) rest (p, h) b = rw (p, span_digits-append ds rest h b) refl
