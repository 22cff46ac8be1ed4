-- ===== src/Prelude/Sorting.antt =====
-- Go's sort.Slice; of elements that the order leaves open, the first stays first.
use mathlib.Core.List.{Perm}
use mathlib.Core.List.Perm
use protocol_gateway.Prelude.{
  ℕ, suc, ◌≤◌, ◌≡◌, refl, Bool, List, [], ◌∷◌, length, ltb, All, All-map_impl, Bool-cases, inl, inr,
  if◌then◌else◌, arith,
}

module _ {ℓ} {A : Type ℓ} where
  abbrev pub insert_by : (A → A → Bool) → A → List A → List A
  insert_by before x [] = x ∷ []
  insert_by before x (y ∷ ys) = if before y x then y ∷ insert_by before x ys else x ∷ y ∷ ys

  abbrev pub sort_by : (A → A → Bool) → List A → List A
  sort_by before [] = []
  sort_by before (x ∷ xs) = insert_by before x (sort_by before xs)

  module _ (before : A → A → Bool) where
    All-insert_by {κ} :
        (P : A → Type κ) (x : A) (ys : List A) → P x → All P ys → All P (insert_by before x ys)
    All-insert_by P x [] p ps = (p, tt)
    All-insert_by P x (y ∷ ys) p (q, qs) =
        let later = All-insert_by P x ys p qs in
        elim (Bool-cases (before y x)) [ inl b ↦ rw b (q, later) | inr b ↦ rw b (p, (q, qs)) ]

    pub All-sort_by {κ} : (P : A → Type κ) (xs : List A) → All P xs → All P (sort_by before xs)
    All-sort_by P [] ps = tt
    All-sort_by P (x ∷ xs) (p, ps) = All-insert_by P x _ p (All-sort_by P xs ps)

    perm-insert_by : (x : A) (ys : List A) → Perm (insert_by before x ys) (x ∷ ys)
    perm-insert_by x [] = Perm.refl _
    perm-insert_by x (y ∷ ys) = elim (Bool-cases (before y x)) [
      | inl b ↦ rw b (Perm.trans (Perm.cons y (perm-insert_by x ys)) (Perm.swap x y ys))
      | inr b ↦ rw b (Perm.refl _)
    ]

    pub perm-sort_by : (xs : List A) → Perm (sort_by before xs) xs
    perm-sort_by [] = Perm.refl _
    perm-sort_by (x ∷ xs) =
        Perm.trans (perm-insert_by x (sort_by before xs)) (Perm.cons x (perm-sort_by xs))

    length-insert_by : (x : A) (ys : List A) → length (insert_by before x ys) ≡ suc (length ys)
    length-insert_by x [] = refl
    length-insert_by x (y ∷ ys) = ground (arith, length-insert_by x ys)

    pub length-sort_by : (xs : List A) → length (sort_by before xs) ≡ length xs
    length-sort_by [] = refl
    length-sort_by (x ∷ xs) =
        omega (arith, length-insert_by x (sort_by before xs), length-sort_by xs)

  module _ (key : A → ℕ) where
    abbrev pub IsAscendingBy : List A → Type 0
    IsAscendingBy [] = Unit
    IsAscendingBy (x ∷ xs) = All (λ y. key x ≤ key y) xs × IsAscendingBy xs

    insert_by-IsAscendingBy :
        (x : A) (ys : List A)
        → IsAscendingBy ys
        → IsAscendingBy (insert_by (λ a b. ltb (key a) (key b)) x ys)
    insert_by-IsAscendingBy x [] h = (tt, tt)
    insert_by-IsAscendingBy x (y ∷ ys) (p, h) = elim (Bool-cases (ltb (key y) (key x))) [
      | inl b ↦ rw b (
        All-insert_by (λ a b. ltb (key a) (key b)) (λ z. key y ≤ key z) x ys (ground arith) p,
        insert_by-IsAscendingBy x ys h,
      )
      | inr b ↦ rw b ((ground arith, All-map_impl _ _ ys (λ z q. ground (arith, b, q)) p), (p, h))
    ]

    pub sort_by-IsAscendingBy :
        (xs : List A) → IsAscendingBy (sort_by (λ a b. ltb (key a) (key b)) xs)
    sort_by-IsAscendingBy [] = tt
    sort_by-IsAscendingBy (x ∷ xs) = insert_by-IsAscendingBy x _ (sort_by-IsAscendingBy xs)
