-- ===== src/S7/Address/RoundTrip.antt =====
-- That parseSymbolicAddress of internal/adapter/s7/client.go reads back a printed address.
use protocol_gateway.Prelude.{
  ◌⊎◌, inr, ℕ, ◌+◌, ◌-◌, ◌^◌, ◌<◌, ◌≡◌, refl, true, false, ltb, List, [], ◌∷◌, ◌++◌, Option, none,
  some, arith, ap, ◌∙◌, sym, subst,
}
use protocol_gateway.Domain.Errors.{Error}
use protocol_gateway.Domain.Tag.{S7Area}
use protocol_gateway.S7.Address.{
  S7Location, location, is_digit, span_digits, atoi, match_bit, match_offset, skip_size, match_area,
  match_all_digits, match_number, strip, match_typed, match_block, match_after_db, match_db,
  or_else, match_address, parse_symbolic_address, bytes,
}
use protocol_gateway.S7.Address.Decimal.{
  show, Digits, Digits-show, atoi-show, show-cons, span_digits-append,
}
use protocol_gateway.S7.Address.Printing.{
  Size, byte, word, double, size_in_block, size_in_area, show_offset, print, Addressable,
  parse-Plain, print-Plain, bit-digit,
}

match_bit-dot :
    (at : ℕ → S7Location) (bit : ℕ)
    → bit < 8
    → match_bit at (0x2e ∷ (bit + 0x30) ∷ []) ≡ some (inr (at bit))
unfolding match_bit
match_bit-dot at bit h =
    let small : (ltb 7 (bit + 0x30 - 0x30) ≡ false) = ground arith in
    let same : (bit + 0x30 - 0x30 ≡ bit) = omega arith in rw (bit-digit bit h, small, same) refl

match_offset-show :
    (a : S7Area) (db offset bit : ℕ)
    → offset < 2 ^ 63
    → bit < 8
    → match_offset a db (span_digits (show_offset offset bit))
      ≡ some (inr (location a db offset bit))
unfolding match_offset
match_offset-show a db offset bit o h =
    let (c, cs, e) = show-cons offset in
    let split =
      span_digits-append (show offset) (0x2e ∷ (bit + 0x30) ∷ []) (Digits-show offset) refl in
    rw (split, e)
      (match_bit-dot (location a db (atoi (c ∷ cs))) bit h
        ∙ ap (λ n. some (inr (location a db n bit))) (rw (← e) (atoi-show offset o)))

skip_size-digit : (c : ℕ) (cs : List ℕ) → is_digit c ≡ true → skip_size (c ∷ cs) ≡ c ∷ cs
unfolding skip_size
skip_size-digit c cs h = ground arith

skip_size-size :
    (size : Option Size) (offset : ℕ) (rest : List ℕ)
    → skip_size (size_in_area size (show offset ++ rest)) ≡ show offset ++ rest
unfolding skip_size
skip_size-size (some byte) offset rest = refl
skip_size-size (some word) offset rest = refl
skip_size-size (some double) offset rest = refl
skip_size-size none offset rest =
    let (c, cs, e) = show-cons offset in
    let digit = (subst Digits e (Digits-show offset)).0 in
    rw e (skip_size-digit c (cs ++ rest) digit)

match_offset-size :
    (a : S7Area) (size : Option Size) (offset bit : ℕ)
    → offset < 2 ^ 63
    → bit < 8
    → match_offset a 0 (span_digits (skip_size (size_in_area size (show_offset offset bit))))
      ≡ some (inr (location a 0 offset bit))
match_offset-size a size offset bit o h =
    rw (skip_size-size size offset (0x2e ∷ (bit + 0x30) ∷ []))
      (match_offset-show a 0 offset bit o h)

append-nil : (xs : List ℕ) → xs ++ [] ≡ xs
append-nil [] = refl
append-nil (x ∷ xs) = ap (λ (r : List ℕ). x ∷ r) (append-nil xs)

match_all_digits-show :
    (a : S7Area) (offset : ℕ)
    → offset < 2 ^ 63
    → match_all_digits a (span_digits (show offset)) ≡ some (inr (location a 0 offset 0))
unfolding match_all_digits
match_all_digits-show a offset o =
    let (c, cs, e) = show-cons offset in
    let split =
      ap span_digits (sym (append-nil (show offset)))
      ∙ span_digits-append (show offset) [] (Digits-show offset) tt in
    rw (split, e) (ap (λ n. some (inr (location a 0 n 0))) (rw (← e) (atoi-show offset o)))

match_typed-size :
    (size : Option Size) (db : ℕ) (cs : List ℕ)
    → match_typed db (some (size_in_block size ∷ cs)) ≡ match_offset S7Area.db db (span_digits cs)
unfolding match_typed
match_typed-size none db cs = refl
match_typed-size (some byte) db cs = refl
match_typed-size (some word) db cs = refl
match_typed-size (some double) db cs = refl

match_block-show :
    (db : ℕ) (rest : List ℕ)
    → match_block (show db, rest) ≡ match_typed (atoi (show db)) (strip (bytes ".DB") rest)
unfolding match_block
match_block-show db rest = let (c, cs, e) = show-cons db in rw e refl

match_db-print :
    (size : Option Size) (db offset bit : ℕ)
    → db < 2 ^ 63
    → offset < 2 ^ 63
    → bit < 8
    → match_db (print size S7Area.db db offset bit) ≡ some (inr (location S7Area.db db offset bit))
unfolding match_db match_after_db strip
match_db-print size db offset bit d o h =
    let typed = size_in_block size ∷ show_offset offset bit in
    let split = span_digits-append (show db) (0x2e ∷ 0x44 ∷ 0x42 ∷ typed) (Digits-show db) refl in
    rw split (
      match_block-show db (0x2e ∷ 0x44 ∷ 0x42 ∷ typed)
      ∙ ap (λ n. match_typed n (some typed)) (atoi-show db d)
      ∙ match_typed-size size db (show_offset offset bit)
      ∙ match_offset-show S7Area.db db offset bit o h)

match_address-db :
    (cs : List ℕ) (r : Error ⊎ S7Location) → match_db cs ≡ some r → match_address cs ≡ r
unfolding match_address or_else
match_address-db cs r e = rw e refl

match_address-print :
    (size : Option Size) (a : S7Area) (db offset bit : ℕ)
    → Addressable a db bit
    → offset < 2 ^ 63
    → match_address (print size a db offset bit) ≡ inr (location a db offset bit)
unfolding match_address or_else match_db strip match_after_db match_area match_number
match_address-print size S7Area.db db offset bit (d, h) o =
    match_address-db (print size S7Area.db db offset bit) _
      (match_db-print size db offset bit d o h)
match_address-print size S7Area.merker db offset bit (d, h) o =
    rw (d, match_offset-size S7Area.merker size offset bit o h) refl
match_address-print size S7Area.input db offset bit (d, h) o =
    rw (d, match_offset-size S7Area.input size offset bit o h) refl
match_address-print size S7Area.output db offset bit (d, h) o =
    rw (d, match_offset-size S7Area.output size offset bit o h) refl
match_address-print size S7Area.timer db offset bit (d, h) o =
    rw (d, h, match_all_digits-show S7Area.timer offset o) refl
match_address-print size S7Area.counter db offset bit (d, h) o =
    rw (d, h, match_all_digits-show S7Area.counter offset o) refl
match_address-print size (S7Area.other s) db offset bit h o = cc

-- The address of a location, printed with any size, is read back as that location: of a data block
-- and of the flags, inputs and outputs with a bit up to 7, and of a timer or counter; the numbers are
-- below 2^63.
pub parse-print :
    (size : Option Size) (a : S7Area) (db offset bit : ℕ)
    → Addressable a db bit
    → offset < 2 ^ 63
    → parse_symbolic_address (print size a db offset bit) ≡ inr (location a db offset bit)
parse-print size a db offset bit h o =
    parse-Plain (print size a db offset bit) (print-Plain size a db offset bit h)
    ∙ match_address-print size a db offset bit h o
