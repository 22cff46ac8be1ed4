-- ===== src/Mqtt/Publisher/Buffer.antt =====
-- The buffer of internal/adapter/mqtt/publisher.go as the newest messages, in their order.
use protocol_gateway.Prelude.{
  ℕ, zero, suc, ◌-◌, ◌≤◌, ◌<◌, ◌≡◌, refl, sym, ap, ◌∙◌, true, List, [], ◌∷◌, ◌++◌, Option, none,
  some, Bool-cases, inl, inr, length, length-append, length-drop, drop, drop-drop, ltb, arith,
}
use protocol_gateway.Domain.DataPoint.{DataPoint}
use protocol_gateway.Mqtt.Publisher.{
  BufferedMessage, Publisher, message_of, offer, drop_oldest, buffer_bytes, Config, Delivery,
}

-- The last elements of a list.
unfoldable pub keep_last {ℓ} : {A : Type ℓ} → ℕ → List A → List A
keep_last n xs = drop (length xs - n) xs

module _ {ℓ} {A : Type ℓ} where
  drop-append : (k : ℕ) (xs ys : List A) → k ≤ length xs → drop k (xs ++ ys) ≡ drop k xs ++ ys
  drop-append zero xs ys h = refl
  drop-append (suc k) [] ys h = absurd (omega (arith, h))
  drop-append (suc k) (x ∷ xs) ys h = drop-append k xs ys (omega (arith, h))

  pub keep_last_all : (n : ℕ) (xs : List A) → length xs ≤ n → keep_last n xs ≡ xs
  unfolding keep_last
  keep_last_all n xs h =
      let none_dropped : length xs - n ≡ 0 = omega (arith, h) in rw none_dropped refl

  pub length-keep_last : (n : ℕ) (xs : List A) → length (keep_last n xs) ≤ n
  unfolding keep_last
  length-keep_last n xs = omega (arith, length-drop (length xs - n) xs)

  -- What was forgotten before would be forgotten later.
  pub keep_last-append :
      (n : ℕ) (xs ys : List A) → keep_last n (keep_last n xs ++ ys) ≡ keep_last n (xs ++ ys)
  unfolding keep_last
  keep_last-append n xs ys =
      let k = length xs - n in
      rw
        (
          ← drop-append k xs ys (omega arith),
          drop-drop k (length (drop k (xs ++ ys)) - n) (xs ++ ys),
        )
        (ap (λ i. drop i (xs ++ ys)) (omega (arith, length-drop k (xs ++ ys), length-append xs ys)))

  -- One more element in a list that is full.
  pub keep_last_full :
      (x y : A) (xs : List A) → keep_last (suc (length xs)) (x ∷ xs ++ y ∷ []) ≡ xs ++ y ∷ []
  unfolding keep_last
  keep_last_full x y xs =
      let one_dropped : length (x ∷ xs ++ y ∷ []) - suc (length xs) ≡ 1 =
        omega (arith, length-append xs (y ∷ [])) in
      rw one_dropped refl

-- The messages of the points that can be written as JSON.
abbrev pub messages :
    Config → (DataPoint → Option (List ℕ)) → List (DataPoint × Delivery) → List BufferedMessage
messages c to_json [] = []
messages c to_json ((dp, d) ∷ rest) = elim (to_json dp) [
  | none ↦ messages c to_json rest
  | some payload ↦ message_of c dp payload ∷ messages c to_json rest
]

message_buffer-offer :
    (msg : BufferedMessage) (p : Publisher)
    → length p.message_buffer < p.config.buffer_size
    → (offer msg p).0.message_buffer ≡ p.message_buffer ++ msg ∷ []
unfolding offer
message_buffer-offer msg p h =
    let room : ltb (length p.message_buffer) p.config.buffer_size ≡ true = ground (arith, h) in
    rw (offer, room, room) refl

oldest_first :
    (msg : BufferedMessage) (p : Publisher) (xs : List BufferedMessage)
    → p.message_buffer ≡ xs
    → 0 < p.config.buffer_size
    → length xs ≡ p.config.buffer_size
    → (offer msg (drop_oldest p)).0.message_buffer ≡ keep_last p.config.buffer_size (xs ++ msg ∷ [])
unfolding drop_oldest
oldest_first msg p [] e room full = absurd (omega (arith, room, full))
oldest_first msg p (x ∷ xs) e room full =
    let rest : (drop_oldest p).message_buffer ≡ xs = rw (drop_oldest, e) refl in
    message_buffer-offer msg (drop_oldest p) (omega (arith, ap length rest, full))
    ∙ rw (rest, ← full, keep_last_full x msg xs) refl

pub message_buffer-buffer_bytes :
    (msg : BufferedMessage) (p : Publisher)
    → 0 < p.config.buffer_size
    → length p.message_buffer ≤ p.config.buffer_size
    → (buffer_bytes msg p).0.message_buffer
      ≡ keep_last p.config.buffer_size (p.message_buffer ++ msg ∷ [])
unfolding buffer_bytes
message_buffer-buffer_bytes msg p room h =
    elim (Bool-cases (ltb (length p.message_buffer) p.config.buffer_size)) [
      | inl e ↦
          rw (buffer_bytes, e)
            (message_buffer-offer msg p (ground (arith, e))
              ∙ sym (
                  keep_last_all p.config.buffer_size (p.message_buffer ++ msg ∷ [])
                    (ground (arith, e, length-append p.message_buffer (msg ∷ [])))))
      | inr e ↦
          rw (buffer_bytes, e)
            (oldest_first msg p p.message_buffer refl room (ground (arith, e, h)))
    ]
