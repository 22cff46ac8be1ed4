-- ===== src/Modbus/Batch/Sorting.antt =====
-- The order and the contents of what sortTagsByAddress leaves.
use mathlib.Core.List.{Perm, perm_middle}
use mathlib.Core.List.Perm
use protocol_gateway.Prelude.{
  ℕ, ◌≤◌, List, [], ◌∷◌, ◌++◌, ltb, All, All-map_impl, arith, inl, inr, Bool-cases,
}
use protocol_gateway.Domain.Tag.{Tag}
use protocol_gateway.Modbus.Batch.{sift, unwind, sort_from, sort_tags_by_address}

abbrev pub AtLeast : ℕ → Tag → Type 0
AtLeast a t = a ≤ t.address

abbrev AtMost : ℕ → Tag → Type 0
AtMost a t = t.address ≤ a

abbrev pub IsAscending : List Tag → Type 0
IsAscending [] = Unit
IsAscending (t ∷ ts) = All (AtLeast t.address) ts × IsAscending ts

abbrev IsDescending : List Tag → Type 0
IsDescending [] = Unit
IsDescending (t ∷ ts) = All (AtMost t.address) ts × IsDescending ts

perm-sift : (t : Tag) (us : List Tag) → Perm (sift t us) (t ∷ us)
unfolding sift
perm-sift t [] = Perm.refl _
perm-sift t (u ∷ us) = elim (Bool-cases (ltb t.address u.address)) [
  | inl e ↦ rw e (Perm.trans (Perm.cons u (perm-sift t us)) (Perm.swap t u us))
  | inr e ↦ rw e (Perm.refl _)
]

perm-unwind : (us out : List Tag) → Perm (unwind us out) (us ++ out)
unfolding unwind
perm-unwind [] out = Perm.refl out
perm-unwind (u ∷ us) out = Perm.trans (perm-unwind us (u ∷ out)) (perm_middle us out)

perm-sort_from : (us ts : List Tag) → Perm (sort_from us ts) (us ++ ts)
unfolding sort_from
perm-sort_from us [] = perm-unwind us []
perm-sort_from us (t ∷ ts) =
    Perm.trans (perm-sort_from (sift t us) ts)
      (Perm.trans (Perm.append (perm-sift t us) (Perm.refl ts)) (Perm.symm (perm_middle us ts)))

-- Sorting keeps the tags.
pub perm-sort_tags_by_address : (ts : List Tag) → Perm (sort_tags_by_address ts) ts
unfolding sort_tags_by_address
perm-sort_tags_by_address ts = perm-sort_from [] ts

sift-AtMost :
    (a : ℕ) (t : Tag) (us : List Tag)
    → t.address ≤ a
    → All (AtMost a) us
    → All (AtMost a) (sift t us)
unfolding sift
sift-AtMost a t [] h k = (h, tt)
sift-AtMost a t (u ∷ us) h (p, k) = ground (arith, sift-AtMost a t us h k)

sift-IsDescending : (t : Tag) (us : List Tag) → IsDescending us → IsDescending (sift t us)
unfolding sift
sift-IsDescending t [] h = (tt, tt)
sift-IsDescending t (u ∷ us) (p, h) = elim (Bool-cases (ltb t.address u.address)) [
  | inl e ↦ rw e (sift-AtMost u.address t us (ground arith) p, sift-IsDescending t us h)
  | inr e ↦ rw e ((ground arith, All-map_impl _ _ us (λ x q. ground arith) p), (p, h))
]

unwind-IsAscending :
    (us out : List Tag)
    → IsDescending us
    → IsAscending out
    → All (λ u. All (AtLeast u.address) out) us
    → IsAscending (unwind us out)
unfolding unwind
unwind-IsAscending [] out d a h = a
unwind-IsAscending (u ∷ us) out (p, d) a (q, h) =
    unwind-IsAscending us (u ∷ out) d (q, a) (both us p h)
  where
    both :
        (vs : List Tag)
        → All (AtMost u.address) vs
        → All (λ v. All (AtLeast v.address) out) vs
        → All (λ v. All (AtLeast v.address) (u ∷ out)) vs
    both [] a b = tt
    both (v ∷ vs) (x, a) (y, b) = ((x, y), both vs a b)

sort_from-IsAscending : (us ts : List Tag) → IsDescending us → IsAscending (sort_from us ts)
unfolding sort_from
sort_from-IsAscending us [] d = unwind-IsAscending us [] d tt (trivially us)
  where
    trivially : (vs : List Tag) → All (λ v. All (AtLeast v.address) []) vs
    trivially [] = tt
    trivially (v ∷ vs) = (tt, trivially vs)
sort_from-IsAscending us (t ∷ ts) d =
    sort_from-IsAscending (sift t us) ts (sift-IsDescending t us d)

-- The sorted tags have ascending addresses.
pub sort_tags_by_address-IsAscending : (ts : List Tag) → IsAscending (sort_tags_by_address ts)
unfolding sort_tags_by_address
sort_tags_by_address-IsAscending ts = sort_from-IsAscending [] ts tt
