-- ===== src/Service/Topic.antt =====
-- sanitizeTopicSegment of internal/service/polling.go. A text is the list of its code points.
pub mod Segments
use protocol_gateway.Prelude.{
  ℕ, Bool, true, false, ◌&&◌, ◌||◌, ◌==◌, leb, List, [], ◌∷◌, map, if◌then◌else◌,
}

-- unicode.IsSpace.
abbrev pub is_space : ℕ → Bool
is_space c =
    (leb 9 c && leb c 13)
    || c == 0x20
    || c == 0x85
    || c == 0xa0
    || c == 0x1680
    || (leb 0x2000 c && leb c 0x200a)
    || c == 0x2028
    || c == 0x2029
    || c == 0x202f
    || c == 0x205f
    || c == 0x3000

abbrev pub is_underscore : ℕ → Bool
is_underscore c = c == 0x5f

-- strings.Trim and strings.TrimSpace cut such code points off at both ends.
unfoldable pub trim_left : (ℕ → Bool) → List ℕ → List ℕ
trim_left cut [] = []
trim_left cut (c ∷ cs) = let rest = trim_left cut cs in if cut c then rest else c ∷ cs

abbrev keep_before : (ℕ → Bool) → ℕ → List ℕ → List ℕ
keep_before cut c [] = if cut c then [] else c ∷ []
keep_before cut c (d ∷ ds) = c ∷ d ∷ ds

unfoldable pub trim_right : (ℕ → Bool) → List ℕ → List ℕ
trim_right cut [] = []
trim_right cut (c ∷ cs) = keep_before cut c (trim_right cut cs)

unfoldable pub trim : (ℕ → Bool) → List ℕ → List ℕ
unfolding trim_left trim_right
trim cut cs = trim_right cut (trim_left cut cs)

-- strings.ReplaceAll of one character by an underscore.
unfoldable pub replace_all : ℕ → List ℕ → List ℕ
replace_all old cs = map (λ c. if c == old then 0x5f else c) cs

-- The characters are `/`, `#`, `+` and the blank.
unfoldable pub sanitize_topic_segment : List ℕ → List ℕ
unfolding trim replace_all
sanitize_topic_segment s =
    trim is_underscore
      (replace_all 0x20 (replace_all 0x2b (replace_all 0x23 (replace_all 0x2f (trim is_space s)))))
