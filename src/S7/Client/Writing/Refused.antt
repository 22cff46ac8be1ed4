-- ===== src/S7/Client/Writing/Refused.antt =====
-- That WriteTags of internal/adapter/s7/client.go reports on each write, and refuses what is not
-- writable.
use protocol_gateway.Prelude.{
  ℕ, ◌≡◌, true, false, List, [], ◌∷◌, Option, none, some, length, get_elem?, set, length-set,
  get_elem?-set_ne, ◌∙◌, All,
}
use protocol_gateway.Domain.Errors.{tag_not_writable}
use protocol_gateway.Modbus.Errors.{ClientError, wrapped}
use protocol_gateway.S7.Client.{is_tag_writable}
use protocol_gateway.S7.Client.Single.{Surroundings}
use protocol_gateway.S7.Client.Writing.{
  TagWrite, IndexedWrite, Errors, copy_errors, stop_all, stop_unset, set_unset,
}

-- The error of a tag that cannot be written.
abbrev pub refusal : Surroundings → TagWrite → Option ClientError
refusal env x = some (wrapped tag_not_writable (env.detail tag_not_writable x.tag))

-- One report for each write, and the refusals at their places.
pub record Reported (env : Surroundings) (ws : List TagWrite) (errs : Errors) : Type 0 where
  pub same_length : length errs ≡ length ws
  pub refused :
      (i : ℕ) (x : TagWrite)
      → get_elem? ws i ≡ some x
      → is_tag_writable x.tag ≡ false
      → get_elem? errs i ≡ some (refusal env x)

-- A write that is let through, at its place.
abbrev pub IsPlaced : List TagWrite → IndexedWrite → Type 0
IsPlaced ws x = (get_elem? ws x.orig_index ≡ some x.write) × (is_tag_writable x.write.tag ≡ true)

module _ (env : Surroundings) (ws : List TagWrite) where
  pub set-Reported :
      (x : IndexedWrite) (o : Option ClientError) (errs : Errors)
      → IsPlaced ws x
      → Reported env ws errs
      → Reported env ws (set errs x.orig_index o)
  set-Reported x o errs (at, on) k = record {
    same_length = length-set errs x.orig_index o ∙ k.same_length;
    refused = λ i y here off.
        get_elem?-set_ne errs o (λ (e : x.orig_index ≡ i). absurd (cc (e, at, on, here, off)))
        ∙ k.refused i y here off;
  }

  pub copy_errors-Reported :
      (xs : List IndexedWrite) (es errs : Errors)
      → All (IsPlaced ws) xs
      → Reported env ws errs
      → Reported env ws (copy_errors xs es errs)
  unfolding copy_errors
  copy_errors-Reported [] es errs p k = k
  copy_errors-Reported (x ∷ xs) [] errs p k = k
  copy_errors-Reported (x ∷ xs) (e ∷ es) errs p k =
      copy_errors-Reported xs es _ p.1 (set-Reported x e errs p.0 k)

  pub stop_all-Reported :
      (e : ClientError) (xs : List IndexedWrite) (errs : Errors)
      → All (IsPlaced ws) xs
      → Reported env ws errs
      → Reported env ws (stop_all e xs errs)
  unfolding stop_all
  stop_all-Reported e [] errs p k = k
  stop_all-Reported e (x ∷ xs) errs p k =
      stop_all-Reported e xs _ p.1 (set-Reported x (some e) errs p.0 k)

  pub set_unset-Reported :
      (e : ClientError) (x : IndexedWrite) (errs : Errors) (o : Option (Option ClientError))
      → IsPlaced ws x
      → Reported env ws errs
      → Reported env ws (set_unset e x errs o)
  unfolding set_unset
  set_unset-Reported e x errs (some none) p k = set-Reported x (some e) errs p k
  set_unset-Reported e x errs (some (some old)) p k = k
  set_unset-Reported e x errs none p k = k

  pub stop_unset-Reported :
      (e : ClientError) (xs : List IndexedWrite) (errs : Errors)
      → All (IsPlaced ws) xs
      → Reported env ws errs
      → Reported env ws (stop_unset e xs errs)
  unfolding stop_unset
  stop_unset-Reported e [] errs p k = k
  stop_unset-Reported e (x ∷ xs) errs p k =
      stop_unset-Reported e xs _ p.1 (set_unset-Reported e x errs _ p.0 k)
