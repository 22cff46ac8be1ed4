-- ===== src/Modbus/Pool/Requests.antt =====
-- The requests of the pool (internal/adapter/modbus/pool.go, from ReadTags to WriteMultipleCoils):
-- each gets the client of the device, and runs one operation of the client under its breaker.
use protocol_gateway.Prelude.{ℕ, Bool, true, false, List, Option, none, some}
use protocol_gateway.Prelude.Dict.{lookup, insert}
use protocol_gateway.Domain.Errors.{device_not_found, circuit_breaker_open, external}
use protocol_gateway.Domain.Float.{Floats}
use protocol_gateway.Domain.Value.{Value}
use protocol_gateway.Domain.Tag.{Tag}
use protocol_gateway.Domain.DataPoint.{DataPoint}
use protocol_gateway.Domain.Device.{Device}
use protocol_gateway.Modbus.Errors.{ClientError, IoError, Outcome, done, fails, panics, domain}
use protocol_gateway.Modbus.Client.{Client}
use protocol_gateway.Modbus.Write.{WriteRequest, WriteDevice, Written}
use protocol_gateway.Modbus.Breaker.{Breakers, Admission, admitted, open_state, too_many_requests}
use protocol_gateway.Modbus.Pool.{PooledClient, ConnectionPool, Dial, get_client, with_clients}
use protocol_gateway.Modbus.Range
use protocol_gateway.Modbus.Single
use protocol_gateway.Modbus.Group
use protocol_gateway.Modbus.Write
use protocol_gateway.Modbus.Write.Direct

-- An operation of the client, and whether it sets `lastUsed`: all but ReadTags do, at their start.
pub record Operation (A : Type 0) : Type 0 where
  pub uses : Bool
  pub run : Client → Client × Outcome A

module _ {A : Type 0} where
  -- Whether Execute counts a success; a panic of the request is passed on, and counts as a failure.
  abbrev pub is_success : Outcome A → Bool
  is_success (done a) = true
  is_success (fails e) = false
  is_success panics = false

  module _ (gb : Breakers) (now : ℕ) (op : Operation A) where
    -- The request of an entry that the breaker lets through, or not; `b` is the breaker after that.
    unfoldable pub admit :
        PooledClient gb.Breaker → gb.Breaker → Admission → PooledClient gb.Breaker × Outcome A
    admit pc b admitted =
        let (c, out) = op.run pc.client in
        (
          record pc {
            client = c;
            last_used = elim op.uses [ true ↦ now | false ↦ pc.last_used ];
            breaker = gb.after_request now (is_success out) b;
          },
          out,
        )
    admit pc b open_state = (record pc { breaker = b }, fails (domain circuit_breaker_open))
    admit pc b too_many_requests =
        (record pc { breaker = b }, fails (domain (external "too many requests")))

    -- breaker.Execute, and the error of an open breaker.
    unfoldable pub execute : PooledClient gb.Breaker → PooledClient gb.Breaker × Outcome A
    unfolding admit
    execute pc = let (b, x) = gb.before_request now pc.breaker in admit pc b x

    -- The request of the entry that GetClient leaves, if it leaves one.
    unfoldable pub execute_entry :
        Device
        → ConnectionPool gb.Breaker
        → Option (PooledClient gb.Breaker)
        → ConnectionPool gb.Breaker × Outcome A
    unfolding execute
    execute_entry d p none = (p, fails (domain device_not_found))
    execute_entry d p (some pc) =
        let (pc', out) = execute pc in (with_clients (insert d.id pc' p.clients) p, out)

    unfoldable pub after_client :
        Device
        → ConnectionPool gb.Breaker
        → Option ClientError
        → ConnectionPool gb.Breaker × Outcome A
    unfolding execute_entry
    after_client d p (some e) = (p, fails e)
    after_client d p none = execute_entry d p (lookup d.id p.clients)

    -- What the seven methods share.
    unfoldable pub request :
        Floats → Dial → Device → ConnectionPool gb.Breaker → ConnectionPool gb.Breaker × Outcome A
    unfolding after_client
    request fl dial d p = let (p', e) = get_client gb fl now dial d p in after_client d p' e

-- ReadTag returns a point with an error; the pool keeps the error alone.
abbrev pub reading : Outcome Single.Reading → Outcome (Option DataPoint)
reading (done (p, none)) = done p
reading (done (p, some e)) = fails e
reading (fails e) = fails e
reading panics = panics

-- ReadTags of no tags returns at once.
unfoldable pub read_tags_of :
    Floats
    → Range.Device
    → ClientError
    → (List Tag → ℕ)
    → (List (List Tag) → List (List Tag))
    → List Tag
    → Operation (List DataPoint)
read_tags_of fl wire ended alive order ts = record {
  uses = false;
  run = λ c. Group.read_tags fl wire ended alive order c ts;
}

unfoldable pub read_tag_of : Floats → Single.Surroundings → Tag → Operation (Option DataPoint)
read_tag_of fl env t = record {
  uses = true;
  run = λ c. let (c', out) = Single.read_tag fl t env c in (c', reading out);
}

unfoldable pub write_tag_of :
    Floats → WriteDevice → Single.Surroundings → Tag → Value → Operation Unit
write_tag_of fl wire env t v = record { uses = true; run = Write.write_tag fl wire env t v }

module _ (wire : WriteRequest → Option IoError) (address : ℕ) where
  unfoldable pub write_single_coil_of : Bool → Operation Unit
  write_single_coil_of v = record { uses = true; run = Direct.write_single_coil wire address v }

  unfoldable pub write_single_register_of : ℕ → Operation Unit
  write_single_register_of v = record {
    uses = true;
    run = Direct.write_single_register wire address v;
  }

  unfoldable pub write_multiple_registers_of : List ℕ → Operation Unit
  write_multiple_registers_of vs = record {
    uses = true;
    run = Direct.write_multiple_registers wire address vs;
  }

  unfoldable pub write_multiple_coils_of : List Bool → Operation Unit
  write_multiple_coils_of vs = record {
    uses = true;
    run = Direct.write_multiple_coils wire address vs;
  }

-- The seven methods.
module _ (gb : Breakers) (fl : Floats) (now : ℕ) (dial : Dial) (d : Device) where
  unfoldable pub pool_read_tags :
      Range.Device
      → ClientError
      → (List Tag → ℕ)
      → (List (List Tag) → List (List Tag))
      → List Tag
      → ConnectionPool gb.Breaker
      → ConnectionPool gb.Breaker × Outcome (List DataPoint)
  unfolding request
  pool_read_tags wire e alive order ts =
      request gb now (read_tags_of fl wire e alive order ts) fl dial d

  unfoldable pub pool_read_tag :
      Single.Surroundings
      → Tag
      → ConnectionPool gb.Breaker
      → ConnectionPool gb.Breaker × Outcome (Option DataPoint)
  unfolding request
  pool_read_tag env t = request gb now (read_tag_of fl env t) fl dial d

  unfoldable pub pool_write_tag :
      WriteDevice
      → Single.Surroundings
      → Tag
      → Value
      → ConnectionPool gb.Breaker
      → ConnectionPool gb.Breaker × Written
  unfolding request
  pool_write_tag wire env t v = request gb now (write_tag_of fl wire env t v) fl dial d

  module _ (wire : WriteRequest → Option IoError) (address : ℕ) where
    unfoldable pub pool_write_single_coil :
        Bool → ConnectionPool gb.Breaker → ConnectionPool gb.Breaker × Written
    unfolding request
    pool_write_single_coil v = request gb now (write_single_coil_of wire address v) fl dial d

    unfoldable pub pool_write_single_register :
        ℕ → ConnectionPool gb.Breaker → ConnectionPool gb.Breaker × Written
    unfolding request
    pool_write_single_register v =
        request gb now (write_single_register_of wire address v) fl dial d

    unfoldable pub pool_write_multiple_registers :
        List ℕ → ConnectionPool gb.Breaker → ConnectionPool gb.Breaker × Written
    unfolding request
    pool_write_multiple_registers vs =
        request gb now (write_multiple_registers_of wire address vs) fl dial d

    unfoldable pub pool_write_multiple_coils :
        List Bool → ConnectionPool gb.Breaker → ConnectionPool gb.Breaker × Written
    unfolding request
    pool_write_multiple_coils vs =
        request gb now (write_multiple_coils_of wire address vs) fl dial d
