-- ===== src/Prelude/Dict/Keys.antt =====
-- Maps whose keys stand once, as Go's do.
use protocol_gateway.Prelude.{
  ◌+◌, ◌≤◌, ◌≡◌, refl, String, str_eq, eq_iff, List, [], ◌∷◌, none, some, arith, length, All,
  Bool-cases, some_inj, inl, inr, subst,
}
use protocol_gateway.Prelude.Dict.{lookup, insert, delete, lookup-insert, lookup-delete}

module _ {ℓ} {A : Type ℓ} where
  -- No key stands twice.
  abbrev pub KeysOnce : List (String × A) → Type ℓ
  KeysOnce [] = Unit
  KeysOnce ((key, a) ∷ rest) = (lookup key rest ≡ none) × KeysOnce rest

  -- What holds of every entry holds of the one that is found.
  pub All-lookup :
      (P : String → A → Type 0) (key : String) (entries : List (String × A)) {a : A}
      → All (λ e. P e.0 e.1) entries
      → lookup key entries ≡ some a
      → P key a
  unfolding lookup
  All-lookup P key [] h e = cc
  All-lookup P key ((held, b) ∷ rest) (p, h) e = elim (Bool-cases (str_eq held key)) [
    | inl same ↦
        subst (λ (x : A). P key x) (some_inj (rw same at e))
          (subst (λ (k : String). P k b) ((eq_iff held key).0 same) p)
    | inr other ↦ All-lookup P key rest h (rw other at e)
  ]

  pub All-insert :
      (P : String → A → Type 0) (key : String) (a : A) (entries : List (String × A))
      → P key a
      → All (λ e. P e.0 e.1) entries
      → All (λ e. P e.0 e.1) (insert key a entries)
  unfolding insert
  All-insert P key a [] p h = (p, h)
  All-insert P key a ((held, b) ∷ rest) p (q, h) = elim (Bool-cases (str_eq held key)) [
    | inl same ↦ rw same (p, h)
    | inr other ↦ rw other (q, All-insert P key a rest p h)
  ]

  pub All-delete :
      (P : String → A → Type 0) (key : String) (entries : List (String × A))
      → All (λ e. P e.0 e.1) entries
      → All (λ e. P e.0 e.1) (delete key entries)
  unfolding delete
  All-delete P key [] h = h
  All-delete P key ((held, b) ∷ rest) (q, h) = elim (Bool-cases (str_eq held key)) [
    | inl same ↦ rw same (All-delete P key rest h)
    | inr other ↦ rw other (q, All-delete P key rest h)
  ]

  pub insert-KeysOnce :
      (key : String) (a : A) (entries : List (String × A))
      → KeysOnce entries
      → KeysOnce (insert key a entries)
  unfolding insert lookup
  insert-KeysOnce key a [] h = (refl, tt)
  insert-KeysOnce key a ((held, b) ∷ rest) (n, h) = elim (Bool-cases (str_eq held key)) [
    | inl same ↦ rw same (ground (arith, eq_iff held key), h)
    | inr other ↦ rw other (
      ground (arith, lookup-insert key held a rest, eq_iff held key, eq_iff key held),
      insert-KeysOnce key a rest h,
    )
  ]

  pub delete-KeysOnce :
      (key : String) (entries : List (String × A))
      → KeysOnce entries
      → KeysOnce (delete key entries)
  unfolding delete lookup
  delete-KeysOnce key [] h = h
  delete-KeysOnce key ((held, b) ∷ rest) (n, h) = elim (Bool-cases (str_eq held key)) [
    | inl same ↦ rw same (delete-KeysOnce key rest h)
    | inr other ↦ rw other (
      ground (arith, lookup-delete key held rest, eq_iff held key, eq_iff key held),
      delete-KeysOnce key rest h,
    )
  ]

  -- A key that is found is replaced in its place.
  pub length-insert_found :
      (key : String) (a : A) (entries : List (String × A)) {b : A}
      → lookup key entries ≡ some b
      → length (insert key a entries) ≡ length entries
  unfolding insert lookup
  length-insert_found key a [] e = cc
  length-insert_found key a ((held, b) ∷ rest) e = elim (Bool-cases (str_eq held key)) [
    | inl same ↦ rw same refl
    | inr other ↦ rw other (omega (arith, length-insert_found key a rest (rw other at e)))
  ]

  pub length-insert :
      (key : String) (a : A) (entries : List (String × A))
      → length (insert key a entries) ≤ length entries + 1
  unfolding insert
  length-insert key a [] = omega arith
  length-insert key a ((held, b) ∷ rest) = elim (Bool-cases (str_eq held key)) [
    | inl same ↦ rw same (omega arith)
    | inr other ↦ rw other (omega (arith, length-insert key a rest))
  ]

  pub length-delete :
      (key : String) (entries : List (String × A)) → length (delete key entries) ≤ length entries
  unfolding delete
  length-delete key [] = omega arith
  length-delete key ((held, b) ∷ rest) = elim (Bool-cases (str_eq held key)) [
    | inl same ↦ rw same (omega (arith, length-delete key rest))
    | inr other ↦ rw other (omega (arith, length-delete key rest))
  ]

  pub delete-nil : (key : String) → delete {A = A} key [] ≡ []
  unfolding delete
  delete-nil key = refl
