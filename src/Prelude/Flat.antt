-- ===== src/Prelude/Flat.antt =====
-- Lists of lists put one after the other.
use mathlib.Core.List.{Perm, Permᴰ, Perm-prop, append_assoc, perm_append_comm}
use mathlib.Core.List.Perm
use mathlib.Core.Logic.{∥∥₁_elim}
use native.Mathlib.Bridge.{le_prop}
use protocol_gateway.Prelude.{
  suc, length, ◌≤◌, ◌≡◌, refl, ap, ◌∙◌, arith, List, [], ◌∷◌, ◌++◌, All, subst,
}

module _ {ℓ} {A : Type ℓ} where
  abbrev pub flat : List (List A) → List A
  flat [] = []
  flat (xs ∷ xss) = xs ++ flat xss

  flat_swap : (a b l : List A) → Perm (a ++ (b ++ l)) (b ++ (a ++ l))
  flat_swap a b l =
      rw (append_assoc a b l, append_assoc b a l) at (Perm.append_right l (perm_append_comm a b))

  flat-Permᴰ : {xss yss : List (List A)} → Permᴰ xss yss → Perm (flat xss) (flat yss)
  flat-Permᴰ Permᴰ.nil = Perm.refl _
  flat-Permᴰ (Permᴰ.cons {a = a} e p) = rw (← e) (Perm.append_left a (flat-Permᴰ p))
  flat-Permᴰ (Permᴰ.swap {a = a} {b = b} {l = l} e f) = rw (← e, ← f) (flat_swap a b (flat l))
  flat-Permᴰ (Permᴰ.trans p q) = Perm.trans (flat-Permᴰ p) (flat-Permᴰ q)

  -- Lists in another order hold the same elements.
  pub perm-flat : (xss yss : List (List A)) → Perm xss yss → Perm (flat xss) (flat yss)
  perm-flat xss yss p = ∥∥₁_elim p Perm-prop flat-Permᴰ

-- What holds of all elements of a list holds of those of the list in another order.
module _ {ℓ κ} {A : Type ℓ} (P : A → Type κ) where
  All-Permᴰ : {xs ys : List A} → Permᴰ xs ys → All P xs → All P ys
  All-Permᴰ Permᴰ.nil h = h
  All-Permᴰ (Permᴰ.cons e p) (a, h) = (subst P e a, All-Permᴰ p h)
  All-Permᴰ (Permᴰ.swap e f) (a, (b, h)) = (subst P f b, (subst P e a, h))
  All-Permᴰ (Permᴰ.trans p q) h = All-Permᴰ q (All-Permᴰ p h)

  All-prop : ((x : A) → IsProp (P x)) → (xs : List A) → IsProp (All P xs)
  All-prop h [] = hlevel
  All-prop h (x ∷ xs) = hlevel (h x, All-prop h xs)

  pub All-perm : ((x : A) → IsProp (P x)) → {xs ys : List A} → Perm xs ys → All P xs → All P ys
  All-perm h {ys = ys} p a = ∥∥₁_elim p (All-prop h ys) (λ q. All-Permᴰ q a)

module _ {ℓ} {A : Type ℓ} where
  length-Permᴰ : {xs ys : List A} → Permᴰ xs ys → length xs ≡ length ys
  length-Permᴰ Permᴰ.nil = refl
  length-Permᴰ (Permᴰ.cons e p) = ap suc (length-Permᴰ p)
  length-Permᴰ (Permᴰ.swap e f) = refl
  length-Permᴰ (Permᴰ.trans p q) = length-Permᴰ p ∙ length-Permᴰ q

  pub length-perm : {xs ys : List A} → Perm xs ys → length xs ≤ length ys
  length-perm p = ∥∥₁_elim p le_prop (λ q. omega (arith, length-Permᴰ q))
