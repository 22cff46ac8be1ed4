-- ===== src/Service/Topic/Segments.antt =====
-- What internal/service/polling.go lets into a level of a topic.
use protocol_gateway.Prelude.{
  ℕ, ◌≡◌, ◌≢◌, refl, Bool, true, ◌==◌, List, [], ◌∷◌, Option, none, some, All, either_branch, arith,
  ap,
}
use protocol_gateway.Service.Topic.{
  is_space, is_underscore, trim_left, trim_right, keep_before, trim, replace_all,
  sanitize_topic_segment,
}

abbrev pub first : List ℕ → Option ℕ
first [] = none
first (c ∷ cs) = some c

abbrev pub last : List ℕ → Option ℕ
last [] = none
last (c ∷ []) = some c
last (c ∷ d ∷ ds) = last (d ∷ ds)

-- A part of a topic that opens no level, matches nothing but itself, and has no underscore at its ends.
pub record IsSegment (cs : List ℕ) : Type 0 where
  pub no_slash : All (λ c. c ≢ 0x2f) cs
  pub no_hash : All (λ c. c ≢ 0x23) cs
  pub no_plus : All (λ c. c ≢ 0x2b) cs
  pub no_blank : All (λ c. c ≢ 0x20) cs
  pub starts : first cs ≢ some 0x5f
  pub ends : last cs ≢ some 0x5f

module _ (P : ℕ → Type 0) (cut : ℕ → Bool) where
  All-trim_left : (cs : List ℕ) → All P cs → All P (trim_left cut cs)
  unfolding trim_left
  All-trim_left [] h = tt
  All-trim_left (c ∷ cs) (h, hs) =
      either_branch (All P) (cut c) (λ e. All-trim_left cs hs) (λ e. (h, hs))

  All-keep_before : (c : ℕ) (cs : List ℕ) → P c → All P cs → All P (keep_before cut c cs)
  All-keep_before c [] h hs = either_branch (All P) (cut c) (λ e. tt) (λ e. (h, tt))
  All-keep_before c (d ∷ ds) h hs = (h, hs)

  All-trim_right : (cs : List ℕ) → All P cs → All P (trim_right cut cs)
  unfolding trim_right
  All-trim_right [] h = tt
  All-trim_right (c ∷ cs) (h, hs) = All-keep_before c (trim_right cut cs) h (All-trim_right cs hs)

  All-trim : (cs : List ℕ) → All P cs → All P (trim cut cs)
  unfolding trim
  All-trim cs h = All-trim_right _ (All-trim_left cs h)

module _ (cut : ℕ → Bool) (x : ℕ) (gone : cut x ≡ true) where
  first-trim_left : (cs : List ℕ) → first (trim_left cut cs) ≢ some x
  unfolding trim_left
  first-trim_left [] = λ e. cc
  first-trim_left (c ∷ cs) =
      either_branch (λ r. first r ≢ some x) (cut c) (λ e. first-trim_left cs) (λ e f. cc)

  first-keep_before : (c : ℕ) (cs : List ℕ) → c ≢ x → first (keep_before cut c cs) ≢ some x
  first-keep_before c [] h =
      either_branch (λ r. first r ≢ some x) (cut c) (λ e f. cc) (λ e f. h (ground (arith, f)))
  first-keep_before c (d ∷ ds) h = λ f. h (ground (arith, f))

  first-trim_right : (cs : List ℕ) → first cs ≢ some x → first (trim_right cut cs) ≢ some x
  unfolding trim_right
  first-trim_right [] h = λ f. cc
  first-trim_right (c ∷ cs) h = first-keep_before c (trim_right cut cs) (λ e. h (ap some e))

  last-keep_before : (c : ℕ) (cs : List ℕ) → last cs ≢ some x → last (keep_before cut c cs) ≢ some x
  last-keep_before c [] h = either_branch (λ r. last r ≢ some x) (cut c) (λ e f. cc) (λ e f. cc)
  last-keep_before c (d ∷ ds) h = h

  last-trim_right : (cs : List ℕ) → last (trim_right cut cs) ≢ some x
  unfolding trim_right
  last-trim_right [] = λ f. cc
  last-trim_right (c ∷ cs) = last-keep_before c (trim_right cut cs) (last-trim_right cs)

All-replaced : (old : ℕ) (cs : List ℕ) → old ≢ 0x5f → All (λ c. c ≢ old) (replace_all old cs)
unfolding replace_all
All-replaced old [] h = tt
All-replaced old (c ∷ cs) h = (
  either_branch (λ d. d ≢ old) (c == old) (λ e f. h (omega (arith, f)))
      (λ e f. ground (arith, e, f)),
  All-replaced old cs h,
)

-- What was absent stays absent, unless it is the underscore.
All-replace_all :
    (old x : ℕ) (cs : List ℕ)
    → x ≢ 0x5f
    → All (λ c. c ≢ x) cs
    → All (λ c. c ≢ x) (replace_all old cs)
unfolding replace_all
All-replace_all old x [] h ps = tt
All-replace_all old x (c ∷ cs) h (p, ps) = (
  either_branch (λ d. d ≢ x) (c == old) (λ e f. h (omega (arith, f))) (λ e. p),
  All-replace_all old x cs h ps,
)

-- Whatever the name of a tag, the part of the topic made of it has no `/`, no `+`, no `#` and no
-- blank, so that it is one level and no wildcard, and it neither starts nor ends with an underscore.
pub sanitize_topic_segment-IsSegment : (s : List ℕ) → IsSegment (sanitize_topic_segment s)
unfolding sanitize_topic_segment trim
sanitize_topic_segment-IsSegment s =
    let a = trim is_space s in
    let b = replace_all 0x2f a in
    let c = replace_all 0x23 b in
    let d = replace_all 0x2b c in
    let e = replace_all 0x20 d in
    record {
      no_slash = All-trim _ is_underscore e (
          All-replace_all 0x20 0x2f d (λ p. cc)
            (All-replace_all 0x2b 0x2f c (λ p. cc)
              (All-replace_all 0x23 0x2f b (λ p. cc) (All-replaced 0x2f a (λ p. cc)))));
      no_hash = All-trim _ is_underscore e (
          All-replace_all 0x20 0x23 d (λ p. cc)
            (All-replace_all 0x2b 0x23 c (λ p. cc) (All-replaced 0x23 b (λ p. cc))));
      no_plus =
          All-trim _ is_underscore e
            (All-replace_all 0x20 0x2b d (λ p. cc) (All-replaced 0x2b c (λ p. cc)));
      no_blank = All-trim _ is_underscore e (All-replaced 0x20 d (λ p. cc));
      starts =
          first-trim_right is_underscore 0x5f refl (trim_left is_underscore e)
            (first-trim_left is_underscore 0x5f refl e);
      ends = last-trim_right is_underscore 0x5f refl (trim_left is_underscore e);
    }
