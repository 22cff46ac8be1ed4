-- ===== src/S7/Address.antt =====
-- The addresses of S7 tags (internal/adapter/s7/client.go, parseTagAddress and
-- parseSymbolicAddress). A text is the list of its code points. Each regular expression is a function
-- that reads from the left: what follows its digits is never a digit, so the match is the only one.

pub mod Decimal
pub mod Printing
pub mod RoundTrip
use protocol_gateway.Prelude.{
  ◌⊎◌, inl, inr, ℕ, ◌+◌, ◌-◌, ◌*◌, ◌^◌, min, Bool, ◌&&◌, ◌||◌, ◌==◌, leb, ltb, List, [], ◌∷◌, map,
  Option, none, some, if◌then◌else◌, str_eq, false, true,
}
use protocol_gateway.Prelude.Text.{bytes}
use protocol_gateway.Domain.Errors.{Error, s7_invalid_address, s7_invalid_area}
use protocol_gateway.Domain.Tag.{S7Area, Tag}
use protocol_gateway.Service.Topic.{trim, is_space}

-- What a tag stands for.
pub record S7Location : Type 0 where
  pub area : S7Area
  pub db_number : ℕ
  pub offset : ℕ
  pub bit_offset : ℕ

-- strings.ToUpper: besides a to z, the dotless i and the long s become letters of ASCII. What it
-- makes of other characters is not ASCII, and no pattern looks for it.
abbrev pub upper : ℕ → ℕ
upper c =
    if leb 0x61 c && leb c 0x7a
    then c - 32
    else if c == 0x131
    then 0x49
    else if c == 0x17f
    then 0x53
    else c

abbrev pub is_digit : ℕ → Bool
is_digit c = leb 0x30 c && leb c 0x39

-- \d+, or nothing.
unfoldable pub span_digits : List ℕ → List ℕ × List ℕ
span_digits [] = ([], [])
span_digits (c ∷ cs) =
    let rest = span_digits cs in if is_digit c then (c ∷ rest.0, rest.1) else ([], c ∷ cs)

-- strconv.Atoi on digits, whose error is ignored: a number that is too large becomes the largest.
unfoldable pub value_from : ℕ → List ℕ → ℕ
value_from n [] = n
value_from n (c ∷ cs) = value_from (n * 10 + (c - 0x30)) cs

unfoldable pub atoi : List ℕ → ℕ
unfolding value_from
atoi cs = min (value_from 0 cs) (2 ^ 63 - 1)

-- What a pattern makes of a text: no match, a location or an error.
abbrev pub Match : Type 0
Match = Option (Error ⊎ S7Location)

-- (?:\.(\d))?$ after the offset.
unfoldable pub match_bit : (ℕ → S7Location) → List ℕ → Match
match_bit at [] = some (inr (at 0))
match_bit at (dot ∷ c ∷ []) =
    if dot == 0x2e && is_digit c
    then if ltb 7 (c - 0x30) then some (inl s7_invalid_address) else some (inr (at (c - 0x30)))
    else none
match_bit at _ = none

abbrev pub location : S7Area → ℕ → ℕ → ℕ → S7Location
location a db n bit = record { area = a; db_number = db; offset = n; bit_offset = bit }

-- (\d+)(?:\.(\d))?$, where the digits are split off.
unfoldable pub match_offset : S7Area → ℕ → List ℕ × List ℕ → Match
unfolding match_bit atoi
match_offset a db ([], rest) = none
match_offset a db (d ∷ ds, rest) = match_bit (location a db (atoi (d ∷ ds))) rest

-- ([BWD])?
unfoldable pub skip_size : List ℕ → List ℕ
skip_size [] = []
skip_size (c ∷ cs) = if c == 0x42 || c == 0x57 || c == 0x44 then cs else c ∷ cs

-- ^M([BWD])?(\d+)(?:\.(\d))?$ and the same for I and Q.
unfoldable pub match_area : ℕ → S7Area → List ℕ → Match
unfolding match_offset skip_size span_digits
match_area letter a [] = none
match_area letter a (c ∷ cs) =
    if c == letter then match_offset a 0 (span_digits (skip_size cs)) else none

match_all_digits : S7Area → List ℕ × List ℕ → Match
unfolding atoi
match_all_digits a (d ∷ ds, []) = some (inr (location a 0 (atoi (d ∷ ds)) 0))
match_all_digits a _ = none

-- ^T(\d+)$ and ^C(\d+)$.
unfoldable pub match_number : ℕ → S7Area → List ℕ → Match
unfolding match_all_digits span_digits
match_number letter a [] = none
match_number letter a (c ∷ cs) = if c == letter then match_all_digits a (span_digits cs) else none

-- A literal part of a pattern.
unfoldable pub strip : List ℕ → List ℕ → Option (List ℕ)
strip [] cs = some cs
strip (p ∷ ps) [] = none
strip (p ∷ ps) (c ∷ cs) = let rest = strip ps cs in if c == p then rest else none

-- ([XBWD]) and the offset.
match_typed : ℕ → Option (List ℕ) → Match
unfolding match_offset span_digits
match_typed db none = none
match_typed db (some []) = none
match_typed db (some (c ∷ cs)) =
    if c == 0x58 || c == 0x42 || c == 0x57 || c == 0x44
    then match_offset S7Area.db db (span_digits cs)
    else none

match_block : List ℕ × List ℕ → Match
unfolding match_typed strip atoi
match_block ([], rest) = none
match_block (d ∷ ds, rest) = match_typed (atoi (d ∷ ds)) (strip (bytes ".DB") rest)

match_after_db : Option (List ℕ) → Match
unfolding match_block span_digits
match_after_db none = none
match_after_db (some cs) = match_block (span_digits cs)

-- ^DB(\d+)\.DB([XBWD])(\d+)(?:\.(\d))?$
unfoldable pub match_db : List ℕ → Match
unfolding match_after_db strip
match_db cs = match_after_db (strip (bytes "DB") cs)

-- The first pattern that matches decides.
or_else : Match → Error ⊎ S7Location → Error ⊎ S7Location
or_else none next = next
or_else (some r) next = r

unfoldable pub match_address : List ℕ → Error ⊎ S7Location
unfolding or_else match_db match_area match_number
match_address cs = or_else (match_db cs) (
    or_else (match_area 0x4d S7Area.merker cs) (
      or_else (match_area 0x49 S7Area.input cs) (
        or_else (match_area 0x51 S7Area.output cs) (
          or_else (match_number 0x54 S7Area.timer cs)
            (or_else (match_number 0x43 S7Area.counter cs) (inl s7_invalid_address))))))

-- parseSymbolicAddress; of its errors the text is left out.
unfoldable pub parse_symbolic_address : List ℕ → Error ⊎ S7Location
unfolding match_address trim
parse_symbolic_address s = match_address (map upper (trim is_space s))

is_set : S7Area → Bool
is_set (S7Area.other s) = if str_eq s "" then false else true
is_set _ = true

-- parseTagAddress.
unfoldable pub parse_tag_address : Tag → Error ⊎ S7Location
unfolding parse_symbolic_address is_set
parse_tag_address t =
    if str_eq t.s7_address ""
    then if is_set t.s7_area
      then inr (location t.s7_area t.s7_db_number t.s7_offset t.s7_bit_offset)
      else inl s7_invalid_area
    else parse_symbolic_address (bytes t.s7_address)
