-- ===== src/Book.antt =====
-- internal/book/book.go: the data of a price-time-priority limit order book.
-- A UUID is a number that is only compared; uuid.Nil is 0. Symbols and venues are byte strings.
-- Quantities and prices of orders and fills are numbers: the trading core accepts no order with a
-- quantity or a limit price below 1, and the type's comment says "non-negative in orders and fills".
-- A pointer in a level and the one in byID are one object: a write goes to both.
pub mod Levels
pub mod Sweep
pub mod Submit
pub mod Snapshot
mod Tests
use trade_execution_operatin.Common.{
  ℕ, ◌+◌, ◌%◌, Bool, true, false, Option, none, some, List, leb, ◌==◌, if◌then◌else◌,
}
use trade_execution_operatin.Common.Int.{ℤ, pos, leb_ℤ}
use trade_execution_operatin.Common.Int64.{word}
use trade_execution_operatin.Common.Dict.{Dict}
use trade_execution_operatin.Money.{apply_bps, sub_bps}

abbrev pub Uuid : Type 0
Uuid = ℕ

abbrev pub Name : Type 0
Name = List ℕ

pub data Side : Type 0 where
  buy sell : Side

-- Side.Opposite
abbrev pub opposite : Side → Side
opposite Side.buy = Side.sell
opposite Side.sell = Side.buy

-- type Type
pub data OrderType : Type 0 where
  market limit : OrderType

-- type TIF
pub data Tif : Type 0 where
  ioc gtc : Tif

pub record Order : Type 0 where
  pub id : Uuid
  pub account : Uuid
  pub side : Side
  pub order_type : OrderType
  pub tif : Tif
  pub qty : ℕ
  pub remaining : ℕ
  pub limit_price : ℕ
  pub ref_price : ℕ
  pub seq : ℕ

-- FillID is ids.FillID of the first four fields: a function of the record.
pub record Fill : Type 0 where
  pub shard_id : ℕ
  pub venue : Name
  pub symbol : Name
  pub book_seq : ℕ
  pub price : ℕ
  pub qty : ℕ
  pub taker_order : Uuid
  pub taker_account : Uuid
  pub taker_side : Side
  pub maker_order : Uuid
  pub maker_account : Uuid

pub data Disposition : Type 0 where
  rested cancelled complete : Disposition

-- The values of CancelReason.
pub data Reason : Type 0 where
  no_reason duplicate ioc_remainder collar_breach book_exhausted : Reason

-- type Result
pub record Outcome : Type 0 where
  pub fills : List Fill
  pub disposition : Disposition
  pub remaining_qty : ℕ
  pub cancel_reason : Reason
  pub duplicate_ignored : Bool

-- type level
pub record Level : Type 0 where
  pub price : ℕ
  pub orders : List Order

pub record Book : Type 0 where
  pub symbol : Name
  pub venue : Name
  pub shard_id : ℕ
  pub collar_bps : ℕ
  pub bids : List Level
  pub asks : List Level
  pub by_id : Dict Order
  pub arrival : ℕ
  pub book_seq : ℕ
  pub dedup_ring : List Uuid
  pub dedup_set : List Uuid
  pub dedup_next : ℕ
  pub dedup_limit : ℕ

-- `n++` on a uint64.
abbrev pub next_u64 : ℕ → ℕ
next_u64 n = (n + 1) % word

-- `bound, ok := …; return ok && test(bound)`
abbrev pub leb_bound : ℕ → Option ℤ → Bool
leb_bound p none = false
leb_bound p (some bound) = leb_ℤ (pos p) bound

abbrev pub geb_bound : ℕ → Option ℤ → Bool
geb_bound p none = false
geb_bound p (some bound) = leb_ℤ bound (pos p)

-- crosses: may the order execute at price p?
unfoldable pub crosses_limit : Side → ℕ → ℕ → Bool
crosses_limit Side.buy bound p = leb p bound
crosses_limit Side.sell bound p = leb bound p

unfoldable pub crosses_market : Side → ℕ → ℕ → ℕ → Bool
crosses_market Side.buy collar ref p = leb_bound p (apply_bps (pos ref) (pos collar))
crosses_market Side.sell collar ref p = geb_bound p (sub_bps (pos ref) (pos collar))

unfoldable pub crosses : ℕ → Order → ℕ → Bool
unfolding crosses_limit crosses_market
crosses collar o p = elim o.order_type [
  | OrderType.limit ↦ crosses_limit o.side o.limit_price p
  | OrderType.market ↦
      if o.ref_price == 0 then false else crosses_market o.side collar o.ref_price p
]

-- b.side(s)
abbrev pub side_of : Side → Book → List Level
side_of Side.buy b = b.bids
side_of Side.sell b = b.asks

abbrev pub with_side : Side → Book → List Level → Book
with_side Side.buy b ls = record b { bids = ls }
with_side Side.sell b ls = record b { asks = ls }
