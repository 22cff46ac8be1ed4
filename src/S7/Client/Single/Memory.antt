-- ===== src/S7/Client/Single/Memory.antt =====
-- What WriteTag of internal/adapter/s7/client.go does to the memory of a PLC that does what it is
-- asked.
use protocol_gateway.Prelude.{
  ◌⊎◌, ℕ, zero, suc, ◌+◌, ◌<◌, ◌≡◌, refl, Bool, true, ◌&&◌, List, [], ◌∷◌, some, ◌==◌, arith,
  if◌then◌else◌, ap, ◌∙◌, Bool-cases, inl, inr, eq_iff, ==_iff, sym, subst, Option,
}
use protocol_gateway.Domain.Errors.{Error}
use protocol_gateway.Domain.Float.{Floats}
use protocol_gateway.Domain.Tag.{Tag, S7Area}
use protocol_gateway.Modbus.Convert.{test_bit}
use protocol_gateway.S7.Convert.{reverse_scaling}
use protocol_gateway.Modbus.Errors.{Outcome, done}
use protocol_gateway.Modbus.Range.{Reply, bytes_read}
use protocol_gateway.S7.Batch.{same_area}
use protocol_gateway.S7.Address.{S7Location, location, parse_tag_address}
use protocol_gateway.S7.Client.{
  S7Client, Plc, ag_read_db, ag_read_eb, ag_write_db, ag_write_eb, read_request, write_request,
  Value, is_tag_writable,
}
use protocol_gateway.S7.Client.Single.{
  Surroundings, put_bit, send, modify, write_answer, write_bool_with_rmw, State, retry, write_end,
  write_tag, got, write_at, finish, write_data, proceed, is_bool, to_bool, LoopEnd,
}
use protocol_gateway.S7.Client.Bits.{test_bit-put_bit}

-- The bytes from an offset on.
abbrev pub slice : (ℕ → ℕ) → ℕ → ℕ → List ℕ
slice byte offset zero = []
slice byte offset (suc n) = byte offset ∷ slice byte (offset + 1) n

-- A byte after bytes are written from an offset on.
abbrev pub written : ℕ → List ℕ → ℕ → ℕ → ℕ
written offset [] i old = old
written offset (b ∷ bs) i old = if i == offset then b else written (offset + 1) bs i old

abbrev pub in_memory : S7Area → ℕ → S7Area → ℕ → Bool
in_memory a db a' db' = same_area a a' && db == db'

-- A PLC with a memory of bytes, by area, data block and offset, whose requests succeed. AGReadEB and
-- AGWriteEB are documented to read and write the inputs.
pub record Remembers (plc : Plc) : Type 0 where
  pub byte_at : plc.World → S7Area → ℕ → ℕ → ℕ
  pub reads_db :
      (db offset n : ℕ) (w : plc.World)
      → plc.ask (ag_read_db db offset n) w
        ≡ (w, bytes_read (slice (byte_at w S7Area.db db) offset n))
  pub reads_eb :
      (offset n : ℕ) (w : plc.World)
      → plc.ask (ag_read_eb offset n) w
        ≡ (w, bytes_read (slice (byte_at w S7Area.input 0) offset n))
  pub writes_db :
      (db offset : ℕ) (bs : List ℕ) (w : plc.World)
      → (xs : List ℕ) × ((plc.ask (ag_write_db db offset bs) w).1 ≡ bytes_read xs)
  pub writes_eb :
      (offset : ℕ) (bs : List ℕ) (w : plc.World)
      → (xs : List ℕ) × ((plc.ask (ag_write_eb offset bs) w).1 ≡ bytes_read xs)
  pub after_db :
      (db offset : ℕ) (bs : List ℕ) (w : plc.World) (a : S7Area) (d i : ℕ)
      → byte_at (plc.ask (ag_write_db db offset bs) w).0 a d i ≡ (
          if in_memory S7Area.db db a d
          then written offset bs i (byte_at w a d i)
          else byte_at w a d i)
  pub after_eb :
      (offset : ℕ) (bs : List ℕ) (w : plc.World) (a : S7Area) (d i : ℕ)
      → byte_at (plc.ask (ag_write_eb offset bs) w).0 a d i ≡ (
          if in_memory S7Area.input 0 a d
          then written offset bs i (byte_at w a d i)
          else byte_at w a d i)

-- Where the requests for a location go.
abbrev pub target : S7Area → ℕ → S7Area × ℕ
target S7Area.db db = (S7Area.db, db)
target _ db = (S7Area.input, 0)

same_area-eq : (a a' : S7Area) → same_area a a' ≡ true → a ≡ a'
unfolding same_area
same_area-eq S7Area.db S7Area.db h = refl
same_area-eq S7Area.merker S7Area.merker h = refl
same_area-eq S7Area.input S7Area.input h = refl
same_area-eq S7Area.output S7Area.output h = refl
same_area-eq S7Area.timer S7Area.timer h = refl
same_area-eq S7Area.counter S7Area.counter h = refl
same_area-eq (S7Area.other s) (S7Area.other r) h = ap S7Area.other ((eq_iff s r).0 h)
same_area-eq _ _ h = absurd (ground (arith, h))

in_memory-eq :
    (a : S7Area) (d : ℕ) (a' : S7Area) (d' : ℕ) → in_memory a d a' d' ≡ true → (a ≡ a') × (d ≡ d')
in_memory-eq a d a' d' h = (same_area-eq a a' (ground (arith, h)), ground (arith, h))

-- A byte that may be the one that is written back, bit by bit.
put_where :
    (b mem : Bool) (i offset j bit x y : ℕ)
    → (mem ≡ true → i ≡ offset → x ≡ y)
    → bit < 8
    → test_bit (if mem then if i == offset then put_bit b bit x else y else y) j
      ≡ (if mem && i == offset && j == bit then b else test_bit y j)
put_where b mem i offset j bit x y same h = elim (Bool-cases mem) [
  | inl t ↦ elim (Bool-cases (i == offset)) [
    | inl u ↦
        rw (t, u)
          (test_bit-put_bit b bit j x h
            ∙ ap (λ (n : ℕ). if j == bit then b else test_bit n j) (same t ((==_iff i offset).0 u)))
    | inr u ↦ rw (t, u) refl
  ]
  | inr t ↦ rw t refl
]

module _ (plc : Plc) (m : Remembers plc) where
  ask-read :
      (a : S7Area) (db offset bit n : ℕ) (w : plc.World)
      → plc.ask
          (read_request (record { area = a; db_number = db; offset = offset; bit_offset = bit }) n)
          w
        ≡ (w, bytes_read (slice (m.byte_at w (target a db).0 (target a db).1) offset n))
  unfolding read_request
  ask-read S7Area.db db offset bit n w = m.reads_db db offset n w
  ask-read S7Area.merker db offset bit n w = m.reads_eb offset n w
  ask-read S7Area.input db offset bit n w = m.reads_eb offset n w
  ask-read S7Area.output db offset bit n w = m.reads_eb offset n w
  ask-read S7Area.timer db offset bit n w = m.reads_eb offset n w
  ask-read S7Area.counter db offset bit n w = m.reads_eb offset n w
  ask-read (S7Area.other s) db offset bit n w = m.reads_eb offset n w

  abbrev Wrote : S7Location → List ℕ → plc.World → plc.World × Reply → Type 0
  Wrote l bs w r =
      ((xs : List ℕ) × (r.1 ≡ bytes_read xs))
      × ((a : S7Area) (d i : ℕ)
          → m.byte_at r.0 a d i ≡ (
              if in_memory (target l.area l.db_number).0 (target l.area l.db_number).1 a d
              then written l.offset bs i (m.byte_at w a d i)
              else m.byte_at w a d i))

  ask-write :
      (a : S7Area) (db offset bit : ℕ) (bs : List ℕ) (w : plc.World)
      → Wrote
          (location a db offset bit)
          bs
          w
          (plc.ask (write_request (location a db offset bit) bs) w)
  unfolding write_request
  ask-write S7Area.db db offset bit bs w = (m.writes_db db offset bs w, m.after_db db offset bs w)
  ask-write S7Area.merker db offset bit bs w = (m.writes_eb offset bs w, m.after_eb offset bs w)
  ask-write S7Area.input db offset bit bs w = (m.writes_eb offset bs w, m.after_eb offset bs w)
  ask-write S7Area.output db offset bit bs w = (m.writes_eb offset bs w, m.after_eb offset bs w)
  ask-write S7Area.timer db offset bit bs w = (m.writes_eb offset bs w, m.after_eb offset bs w)
  ask-write S7Area.counter db offset bit bs w = (m.writes_eb offset bs w, m.after_eb offset bs w)
  ask-write (S7Area.other s) db offset bit bs w = (m.writes_eb offset bs w, m.after_eb offset bs w)

  module _ (fl : Floats) (env : Surroundings) where
    -- The write back of a byte with one bit put.
    abbrev PutAt : S7Location → Bool → plc.World → State plc fl env × Outcome (Unit {0}) → Type 0
    PutAt l b w r =
        (r.1 ≡ done tt)
        × ((a : S7Area) (d i j : ℕ)
            → test_bit (m.byte_at r.0.0 a d i) j ≡ (
                if in_memory (target l.area l.db_number).0 (target l.area l.db_number).1 a d
                  && i == l.offset
                  && j == l.bit_offset
                then b
                else test_bit (m.byte_at w a d i) j))

    write_bool_with_rmw-PutAt :
        (t : Tag) (l : S7Location) (b : Bool) (w : plc.World) (c : S7Client)
        → l.bit_offset < 8
        → PutAt l b w (write_bool_with_rmw plc fl env t l (some b) (w, c))
    unfolding write_bool_with_rmw modify send write_answer
    write_bool_with_rmw-PutAt t l b w c h =
        let asked = ask-read l.area l.db_number l.offset l.bit_offset 1 w in
        let x = m.byte_at w (target l.area l.db_number).0 (target l.area l.db_number).1 l.offset in
        let ((xs, e), stored) =
          ask-write l.area l.db_number l.offset l.bit_offset (put_bit b l.bit_offset x ∷ []) w in
        let place = target l.area l.db_number in
        rw asked (
          rw e refl,
          λ a d i j.
              ap (λ (n : ℕ). test_bit n j) (stored a d i)
              ∙ put_where b (in_memory place.0 place.1 a d) i l.offset j l.bit_offset x
                  (m.byte_at w a d i)
                  (λ here at.
                    let (p, q) = in_memory-eq place.0 place.1 a d here in
                    ap (λ (a' : S7Area). m.byte_at w a' place.1 l.offset) p
                    ∙ ap (λ (d' : ℕ). m.byte_at w a d' l.offset) q
                    ∙ ap (m.byte_at w a d) (sym at))
                  h,
        )

    module _ {A : Type 0} (attempt : State plc fl env → State plc fl env × Outcome A) where
      retry-done :
          (rest k : ℕ) (s : State plc fl env) (a : A)
          → (attempt s).1 ≡ done a
          → retry plc fl env attempt rest k s ≡ ((attempt s).0, got a)
      unfolding retry finish proceed
      retry-done zero k s a e = rw e refl
      retry-done (suc rest) k s a e = rw e refl

    write_end-PutAt :
        (t : Tag) (l : S7Location) (b : Bool) (w : plc.World) (s : State plc fl env)
        → PutAt l b w (s, done tt)
        → PutAt l b w (write_end plc fl env t s (got tt))
    unfolding write_end
    write_end-PutAt t l b w (w', c) h = (refl, h.1)

    write_data-bool :
        (t : Tag) (v : Value) (l : S7Location) (w : plc.World) (c : S7Client)
        → c.has_client ≡ true
        → is_bool t.data_type ≡ true
        → write_data plc fl env t v l (w, c)
          ≡ write_bool_with_rmw plc fl env t l (to_bool (reverse_scaling fl v t)) (w, c)
    unfolding write_data
    write_data-bool t v l w c client boolean = simp (client, boolean)

    write_tag-connected :
        (t : Tag) (v : Value) (w : plc.World) (c : S7Client)
        → c.connected ≡ true
        → is_tag_writable t ≡ true
        → write_tag plc fl env t v (w, c) ≡ write_at plc fl env t v (parse_tag_address t) (w, c)
    unfolding write_tag
    write_tag-connected t v w c connected writable = simp (connected, writable)

    -- Writing through a connected client, whose PLC does what it is asked, to a boolean tag that is
    -- writable and has an address that can be parsed with a bit below 8, succeeds for a value that
    -- stands for a boolean once the scaling is reversed; and it changes just the one bit: every other
    -- bit of every byte is as it was. The bit is that of the tag's address for a data block; for a tag
    -- of any other area, it is the bit of the inputs at its offset.
    pub write_tag-PutAt :
        (t : Tag) (v : Value) (l : S7Location) (b : Bool) (w : plc.World) (c : S7Client)
        → c.connected ≡ true
        → c.has_client ≡ true
        → is_tag_writable t ≡ true
        → parse_tag_address t ≡ inr l
        → is_bool t.data_type ≡ true
        → to_bool (reverse_scaling fl v t) ≡ some b
        → l.bit_offset < 8
        → PutAt l b w (write_tag plc fl env t v (w, c))
    unfolding write_at
    write_tag-PutAt t v l b w c connected client writable parses boolean value bit =
        let attempt = write_data plc fl env t v l in
        let once =
          write_data-bool t v l w c client boolean
          ∙ ap (λ (o : Option Bool). write_bool_with_rmw plc fl env t l o (w, c)) value in
        let put =
          subst (λ (r : State plc fl env × Outcome (Unit {0})). PutAt l b w r) (sym once)
            (write_bool_with_rmw-PutAt t l b w c bit) in
        let whole =
          write_tag-connected t v w c connected writable
          ∙ ap (λ (r : Error ⊎ S7Location). write_at plc fl env t v r (w, c)) parses
          ∙ ap (λ (r : State plc fl env × LoopEnd (Unit {0})). write_end plc fl env t r.0 r.1)
              (retry-done attempt c.max_retries 0 (w, c) tt put.0) in
        subst (λ (r : State plc fl env × Outcome (Unit {0})). PutAt l b w r) (sym whole)
          (write_end-PutAt t l b w (attempt (w, c)).0 (refl, put.1))
