-- ===== src/S7/Client/Bits.antt =====
-- One bit of a byte, as writeBoolWithRMW of internal/adapter/s7/client.go changes it.
use protocol_gateway.Prelude.{
  ℕ, zero, suc, ◌+◌, ◌-◌, ◌/◌, ◌%◌, ◌^◌, ◌<◌, ◌≤◌, ◌≡◌, refl, Bool, true, false, ltb, ◌==◌, arith,
  if◌then◌else◌, Bool-cases, inl, inr, ap, sym, ◌∙◌, lt→ltb,
}
use native.Mathlib.Nat.{div-div-eq-div-mul, div-eq_of_lt}
use protocol_gateway.Modbus.Convert.{test_bit}
use protocol_gateway.S7.Client.Single.{put_bit}

half : (x j : ℕ) → x / 2 ^ suc j ≡ x / 2 / 2 ^ j
half x j = ap (λ (d : ℕ). x / d) (omega arith) ∙ sym (div-div-eq-div-mul x 2 (2 ^ j))

test_bit-half : (x j : ℕ) → test_bit x (suc j) ≡ test_bit (x / 2) j
test_bit-half x j = ap (λ (n : ℕ). n % 2 == 1) (half x j)

-- put_bit without its guard.
put : Bool → ℕ → ℕ → ℕ
put true bit x = if test_bit x bit then x else x + 2 ^ bit
put false bit x = if test_bit x bit then x - 2 ^ bit else x

put-half : (b : Bool) (k x : ℕ) → put b (suc k) x / 2 ≡ put b k (x / 2)
unfolding put
put-half true k x = elim (Bool-cases (test_bit (x / 2) k)) [
  | inl t ↦ rw (test_bit-half x k, t) refl
  | inr f ↦ rw (test_bit-half x k, f) (omega arith)
]
put-half false k x = elim (Bool-cases (test_bit (x / 2) k)) [
  | inl t ↦ rw (test_bit-half x k, t) (omega arith)
  | inr f ↦ rw (test_bit-half x k, f) refl
]

-- A bit that is set is part of the number.
set-le : (x k : ℕ) → test_bit x k ≡ true → 2 ^ k ≤ x
set-le x k t = elim (Bool-cases (ltb x (2 ^ k))) [
  | inl less ↦
      let gone : (x / 2 ^ k ≡ 0) = div-eq_of_lt (ground arith) in
      let one : (x / 2 ^ k % 2 ≡ 1) = ground arith in absurd (omega (arith, gone, one))
  | inr more ↦ ground arith
]

put-low : (b : Bool) (k x : ℕ) → put b (suc k) x % 2 ≡ x % 2
unfolding put
put-low true k x = elim (Bool-cases (test_bit x (suc k))) [
  | inl t ↦ rw t refl
  | inr f ↦ rw f (omega arith)
]
put-low false k x = elim (Bool-cases (test_bit x (suc k))) [
  | inl t ↦ rw t (let le = set-le x (suc k) t in omega (arith, le))
  | inr f ↦ rw f refl
]

put-first : (b : Bool) (x : ℕ) → test_bit (put b 0 x) 0 ≡ b
unfolding put
put-first true x = elim (Bool-cases (test_bit x 0)) [ inl t ↦ rw t t | inr f ↦ rw f (ground arith) ]
put-first false x = elim (Bool-cases (test_bit x 0)) [
  | inl t ↦ rw t (ground arith)
  | inr f ↦ rw f f
]

put-rest : (b : Bool) (x : ℕ) → put b 0 x / 2 ≡ x / 2
unfolding put
put-rest true x = elim (Bool-cases (test_bit x 0)) [
  | inl t ↦ rw t refl
  | inr f ↦ rw f (ground arith)
]
put-rest false x = elim (Bool-cases (test_bit x 0)) [
  | inl t ↦ rw t (ground arith)
  | inr f ↦ rw f refl
]

same_suc : (j k : ℕ) → (suc j == suc k) ≡ (j == k)
same_suc j k = ground arith

test_bit-put :
    (b : Bool) (bit j x : ℕ) → test_bit (put b bit x) j ≡ (if j == bit then b else test_bit x j)
test_bit-put b zero zero x = put-first b x
test_bit-put b zero (suc j) x =
    test_bit-half (put b 0 x) j
    ∙ ap (λ (n : ℕ). test_bit n j) (put-rest b x)
    ∙ sym (test_bit-half x j)
    ∙ ground arith
test_bit-put b (suc k) zero x =
    let low : (put b (suc k) x / 2 ^ 0 % 2 ≡ x / 2 ^ 0 % 2) = omega (arith, put-low b k x) in
    ap (λ (n : ℕ). n == 1) low ∙ ground arith
test_bit-put b (suc k) (suc j) x =
    test_bit-half (put b (suc k) x) j
    ∙ ap (λ (n : ℕ). test_bit n j) (put-half b k x)
    ∙ test_bit-put b k j (x / 2)
    ∙ rw (test_bit-half x j, same_suc j k) refl

-- Of a byte in which one bit is put, that bit is the one put, and the others are as they were.
pub test_bit-put_bit :
    (b : Bool) (bit j x : ℕ)
    → bit < 8
    → test_bit (put_bit b bit x) j ≡ (if j == bit then b else test_bit x j)
unfolding put_bit put
test_bit-put_bit true bit j x h = rw (lt→ltb bit 8 h) (test_bit-put true bit j x)
test_bit-put_bit false bit j x h = rw (lt→ltb bit 8 h) (test_bit-put false bit j x)
