-- ===== src/S7/Client/Writing.antt =====
-- Writing many tags (internal/adapter/s7/client.go, WriteTags and writeTagBatch). The
-- errors of an address and of a value stand without the text around them.
pub mod Refused
pub mod Reports
use protocol_gateway.Prelude.{
  ℕ, ◌+◌, ◌⊎◌, inl, inr, List, [], ◌∷◌, ◌++◌, map, Option, none, some, length, set, get_elem?,
  if◌then◌else◌,
}
use protocol_gateway.Prelude.Text.{bytes}
use protocol_gateway.Prelude.Flat.{flat}
use protocol_gateway.Domain.Errors.{
  Error, Result, ok, err, panic, connection_closed, tag_not_writable, s7_invalid_area,
  s7_write_failed,
}
use protocol_gateway.Domain.Float.{Floats}
use protocol_gateway.Domain.Value.{Value}
use protocol_gateway.Domain.Tag.{Tag}
use protocol_gateway.Modbus.Errors.{
  ClientError, IoError, io_text, Outcome, done, fails, panics, domain, wrapped,
}
use protocol_gateway.S7.Address.{S7Location, parse_tag_address}
use protocol_gateway.S7.Convert.{value_to_bytes}
use protocol_gateway.S7.Client.{
  S7Client, Plc, PlcItem, ItemAnswer, item_error, item_data, has_area_code, is_tag_writable,
  record_tag_error, record_tag_success,
}
use protocol_gateway.S7.Client.Single.{Surroundings, State, is_bool, write_tag}
use protocol_gateway.S7.Client.Reading.{get_word_length, chunks}

-- MaxMultiWriteItems.
abbrev pub max_multi_write_items : ℕ
max_multi_write_items = 20

-- A write, and a write with its place among the writes.
pub record TagWrite : Type 0 where
  pub tag : Tag
  pub value : Value

pub record IndexedWrite : Type 0 where
  pub orig_index : ℕ
  pub write : TagWrite

-- The `errs`: an error or none for each write.
abbrev pub Errors : Type 0
Errors = List (Option ClientError)

-- The writes that can go out together, and those that have to read the byte first.
pub record Separated : Type 0 where
  pub errs : Errors
  pub batchable : List IndexedWrite
  pub bool_writes : List IndexedWrite

-- What is made of the items of a batch: the errors of those that could not be made, the items.
unfoldable pub put_prepared :
    Result PlcItem → Outcome (List (Error ⊎ PlcItem)) → Outcome (List (Error ⊎ PlcItem))
put_prepared panic r = panics
put_prepared (ok i) (done ps) = done (inr i ∷ ps)
put_prepared (ok i) (fails e) = fails e
put_prepared (ok i) panics = panics
put_prepared (err e) (done ps) = done (inl e ∷ ps)
put_prepared (err e) (fails e') = fails e'
put_prepared (err e) panics = panics

valid_items : List (Error ⊎ PlcItem) → List PlcItem
valid_items [] = []
valid_items (inl e ∷ ps) = valid_items ps
valid_items (inr i ∷ ps) = i ∷ valid_items ps

-- The errors where no item goes out, and where those that do have all the same.
refusals : List (Error ⊎ PlcItem) → Errors
refusals [] = []
refusals (inl e ∷ ps) = some (domain e) ∷ refusals ps
refusals (inr i ∷ ps) = none ∷ refusals ps

all_failed : ClientError → List (Error ⊎ PlcItem) → Errors
all_failed e [] = []
all_failed e (inl x ∷ ps) = some (domain x) ∷ all_failed e ps
all_failed e (inr i ∷ ps) = some e ∷ all_failed e ps

-- The errors of a chunk are put back where its writes come from.
unfoldable pub copy_errors : List IndexedWrite → Errors → Errors → Errors
copy_errors [] es errs = errs
copy_errors (x ∷ xs) [] errs = errs
copy_errors (x ∷ xs) (e ∷ es) errs = copy_errors xs es (set errs x.orig_index e)

-- The context has ended: the writes left have its error, the last ones where they have none yet.
unfoldable pub stop_all : ClientError → List IndexedWrite → Errors → Errors
stop_all e [] errs = errs
stop_all e (x ∷ xs) errs = stop_all e xs (set errs x.orig_index (some e))

unfoldable pub set_unset :
    ClientError → IndexedWrite → Errors → Option (Option ClientError) → Errors
set_unset e x errs (some none) = set errs x.orig_index (some e)
set_unset e x errs (some (some old)) = errs
set_unset e x errs none = errs

unfoldable pub stop_unset : ClientError → List IndexedWrite → Errors → Errors
unfolding set_unset
stop_unset e [] errs = errs
stop_unset e (x ∷ xs) errs = stop_unset e xs (set_unset e x errs (get_elem? errs x.orig_index))

unfoldable pub on_context {ℓ} : {A : Type ℓ} → Option ClientError → (ClientError → A) → A → A
on_context (some e) stop go = stop e
on_context none stop go = go

module _ (plc : Plc) (fl : Floats) (env : Surroundings) where
  -- The loop that separates the writes, from the index i.
  unfoldable pub separate_one : ℕ → TagWrite → Separated → Separated
  separate_one i w s =
      if is_tag_writable w.tag
      then if is_bool w.tag.data_type
        then record s {
          errs = none ∷ s.errs;
          bool_writes = record { orig_index = i; write = w } ∷ s.bool_writes;
        }
        else record s {
          errs = none ∷ s.errs;
          batchable = record { orig_index = i; write = w } ∷ s.batchable;
        }
      else record s {
        errs = some (wrapped tag_not_writable (env.detail tag_not_writable w.tag)) ∷ s.errs;
      }

  unfoldable pub separate : ℕ → List TagWrite → Separated
  unfolding separate_one
  separate i [] = record { errs = []; batchable = []; bool_writes = [] }
  separate i (w ∷ ws) = separate_one i w (separate (i + 1) ws)

  -- The item of a write.
  write_item : Tag → S7Location → Result (List ℕ) → Result PlcItem
  write_item t l panic = panic
  write_item t l (err e) = err e
  write_item t l (ok bs) = ok (record {
    area = l.area;
    word_len = get_word_length t.data_type;
    db_number = l.db_number;
    start = l.offset;
    bit = l.bit_offset;
    amount = length bs;
    content = bs;
  })

  unfoldable pub prepare : TagWrite → Error ⊎ S7Location → Result PlcItem
  unfolding write_item
  prepare w (inl e) = err e
  prepare w (inr l) =
      if has_area_code l.area
      then write_item w.tag l (value_to_bytes fl w.value w.tag l.bit_offset)
      else err s7_invalid_area

  unfoldable pub prepare_all : List IndexedWrite → Outcome (List (Error ⊎ PlcItem))
  unfolding prepare put_prepared
  prepare_all [] = done []
  prepare_all (x ∷ xs) =
      put_prepared (prepare x.write (parse_tag_address x.write.tag)) (prepare_all xs)

  -- The answer of an item.
  item_written : Tag → ItemAnswer → S7Client → S7Client × Option ClientError
  item_written t (item_error text) c =
      let e = wrapped s7_write_failed text in
      (record_tag_error t.id e (record c { error_count = c.error_count + 1 }), some e)
  item_written t (item_data bs) c = (
    record_tag_success t.id
        (record c { write_count = c.write_count + 1; consecutive_failures = 0 }),
    none,
  )

  put_error : Option ClientError → S7Client × Errors → S7Client × Errors
  put_error o (c, errs) = (c, o ∷ errs)

  -- The loop over the items that went out, from the index j.
  item_errors :
      (ℕ → ItemAnswer)
      → ℕ
      → List IndexedWrite
      → List (Error ⊎ PlcItem)
      → S7Client
      → S7Client × Errors
  unfolding item_written put_error
  item_errors answers j [] ps c = (c, [])
  item_errors answers j (x ∷ xs) [] c = (c, [])
  item_errors answers j (x ∷ xs) (inl e ∷ ps) c =
      put_error (some (domain e)) (item_errors answers j xs ps c)
  item_errors answers j (x ∷ xs) (inr i ∷ ps) c =
      let (c', o) = item_written x.write.tag (answers j) c in
      put_error o (item_errors answers (j + 1) xs ps c')

  on_write :
      List IndexedWrite
      → List (Error ⊎ PlcItem)
      → S7Client
      → IoError ⊎ (ℕ → ItemAnswer)
      → S7Client × Errors
  unfolding item_errors all_failed valid_items
  on_write xs ps c (inl e) = (
    record c { error_count = c.error_count + length (valid_items ps) },
    all_failed (wrapped s7_write_failed (bytes "AGWriteMulti failed: " ++ io_text e)) ps,
  )
  on_write xs ps c (inr answers) = item_errors answers 0 xs ps c

  send_items :
      List IndexedWrite
      → List (Error ⊎ PlcItem)
      → List PlcItem
      → State plc fl env
      → State plc fl env × Errors
  unfolding on_write refusals
  send_items xs ps [] s = (s, refusals ps)
  send_items xs ps (i ∷ is) (w, c) =
      if c.has_client
      then (let (w', r) = plc.ag_write_multi (i ∷ is) w in
          let (c', errs) = on_write xs ps c r in ((w', c'), errs))
      else ((w, c), all_failed (domain connection_closed) ps)

  -- writeTagBatch.
  unfoldable pub write_tag_batch :
      List IndexedWrite
      → Outcome (List (Error ⊎ PlcItem))
      → State plc fl env
      → State plc fl env × Outcome Errors
  unfolding send_items valid_items
  write_tag_batch xs (done ps) s =
      let (s', errs) = send_items xs ps (valid_items ps) s in (s', done errs)
  write_tag_batch xs (fails e) s = (s, fails e)
  write_tag_batch xs panics s = (s, panics)

  unfoldable pub after_write :
      IndexedWrite
      → Errors
      → (State plc fl env → Errors → State plc fl env × Outcome Errors)
      → State plc fl env × Outcome (Unit {0})
      → State plc fl env × Outcome Errors
  after_write x errs next (s, done u) = next s (set errs x.orig_index none)
  after_write x errs next (s, fails e) = next s (set errs x.orig_index (some e))
  after_write x errs next (s, panics) = (s, panics)

  -- The bits, one by one.
  unfoldable pub write_bools :
      ℕ → List IndexedWrite → State plc fl env → Errors → State plc fl env × Outcome Errors
  unfolding after_write on_context
  write_bools k [] s errs = (s, done errs)
  write_bools k (x ∷ xs) s errs =
      on_context (env.stopped_later k)
        (λ e. write_bools (k + 1) xs s (set errs x.orig_index (some e)))
        (after_write x errs (write_bools (k + 1) xs)
          (write_tag plc fl env x.write.tag x.write.value s))

  unfoldable pub after_chunk :
      List IndexedWrite
      → Errors
      → (State plc fl env → Errors → State plc fl env × Outcome Errors)
      → State plc fl env × Outcome Errors
      → State plc fl env × Outcome Errors
  unfolding copy_errors
  after_chunk xs errs next (s, done es) = next s (copy_errors xs es errs)
  after_chunk xs errs next (s, fails e) = (s, fails e)
  after_chunk xs errs next (s, panics) = (s, panics)

  -- The chunks, from the index k, and the bits after them.
  unfoldable pub write_chunks :
      ℕ
      → List (List IndexedWrite)
      → List IndexedWrite
      → State plc fl env
      → Errors
      → State plc fl env × Outcome Errors
  unfolding write_bools after_chunk write_tag_batch prepare_all stop_all stop_unset on_context
  write_chunks k [] bools s errs = write_bools 0 bools s errs
  write_chunks k (xs ∷ rest) bools s errs =
      on_context (env.stopped k)
        (λ e. (s, done (stop_unset e bools (stop_all e (xs ++ flat rest) errs))))
        (after_chunk xs errs (write_chunks (k + 1) rest bools)
          (write_tag_batch xs (prepare_all xs) s))

  -- WriteTags.
  unfoldable pub write_tags : List TagWrite → State plc fl env → State plc fl env × Outcome Errors
  unfolding separate write_chunks chunks
  write_tags [] s = (s, done [])
  write_tags (x ∷ xs) (w, c) =
      if c.connected
      then (let p = separate 0 (x ∷ xs) in
          write_chunks 0 (chunks max_multi_write_items p.batchable) p.bool_writes (w, c) p.errs)
      else ((w, c), done (map (λ y. some (domain connection_closed)) (x ∷ xs)))
