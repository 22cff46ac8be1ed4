-- ===== src/Prelude/Dict.antt =====
-- Go's maps with string keys, as association lists; a key is looked up at its first entry.
pub mod Keys
use protocol_gateway.Prelude.{
  ◌≡◌, refl, String, str_eq, eq_iff, List, [], ◌∷◌, Option, none, some, arith, if◌then◌else◌,
}

module _ {ℓ} {A : Type ℓ} where
  unfoldable pub lookup : String → List (String × A) → Option A
  lookup key [] = none
  lookup key ((held, a) ∷ rest) = if str_eq held key then some a else lookup key rest

  -- `m[key] = a`: the entry is replaced in its place, or added at the end.
  unfoldable pub insert : String → A → List (String × A) → List (String × A)
  insert key a ((held, b) ∷ rest) =
      if str_eq held key then (key, a) ∷ rest else (held, b) ∷ insert key a rest
  insert key a [] = (key, a) ∷ []

  -- `delete(m, key)` removes every entry of the key.
  unfoldable pub delete : String → List (String × A) → List (String × A)
  delete key [] = []
  delete key ((held, b) ∷ rest) =
      if str_eq held key then delete key rest else (held, b) ∷ delete key rest

  pub lookup-insert :
      (key sought : String) (a : A) (entries : List (String × A))
      → lookup sought (insert key a entries)
        ≡ (if str_eq key sought then some a else lookup sought entries)
  unfolding lookup insert
  lookup-insert key sought a ((held, b) ∷ rest) = ground (
    arith,
    lookup-insert key sought a rest,
    eq_iff held key,
    eq_iff held sought,
    eq_iff key sought,
  )
  lookup-insert key sought a [] = refl

  pub lookup-delete :
      (key sought : String) (entries : List (String × A))
      → lookup sought (delete key entries)
        ≡ (if str_eq key sought then none else lookup sought entries)
  unfolding lookup delete
  lookup-delete key sought [] = ground arith
  lookup-delete key sought ((held, b) ∷ rest) =
      ground (
        arith,
        lookup-delete key sought rest,
        eq_iff held key,
        eq_iff held sought,
        eq_iff key sought,
      )
