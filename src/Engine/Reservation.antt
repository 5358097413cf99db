-- ===== src/Engine/Reservation.antt =====
-- Reservations: sizeReservation of internal/engine/submit.go, and settleReservation and
-- releaseIfTerminal's row update of internal/engine/outcomes.go.
pub mod Bound
pub mod Settle
pub mod Frame
use trade_execution_operatin.Common.{
  ℕ, Bool, true, false, ◌&&◌, Option, none, some, [], if◌then◌else◌,
}
use trade_execution_operatin.Common.Int.{ℤ, pos, ◌+ℤ◌, ltb_ℤ, leb_ℤ}
use trade_execution_operatin.Common.Int64.{add64, sub64}
use trade_execution_operatin.Common.Dict.{lookup, insert}
use trade_execution_operatin.Money.{Minor, Qty, notional_ceil, fee_bps, add, apply_bps}
use trade_execution_operatin.Book.{Uuid, Name, Side, OrderType, Tif}
use trade_execution_operatin.Engine.Db.{
  ResKind, ReservationRow, Db, Error, no_reservation, reservation_check, Tx, ⊤, pure, fail, or_fail,
  gets, modify, bigint, ok, err, bind_result, ◌>>=◌, ◌>>◌,
}

-- The part of Config that the trading core's amounts depend on.
pub record Config : Type 0 where
  pub collar_bps : ℤ
  pub taker_fee_bps : ℤ
  pub maker_fee_bps : ℤ

-- type SubmitRequest, without the venue, which only matching reads.
pub record Request : Type 0 where
  pub account : Uuid
  pub client_order_id : Name
  pub tif : Tif
  pub symbol : Name
  pub side : Side
  pub order_type : OrderType
  pub qty : Qty
  pub limit_price : Minor

-- type reservation
pub record Reservation : Type 0 where
  pub kind : ResKind
  pub symbol : Name
  pub amount : ℤ
  pub unit_price : ℤ
  pub fee_bps : ℤ

-- The per-share bound of a buy: the limit, or the reference price widened by the collar.
abbrev pub price_bound : Config → Request → Minor → Option Minor
price_bound cfg req ref = elim req.order_type [
  | OrderType.limit ↦ some req.limit_price
  | OrderType.market ↦ apply_bps ref cfg.collar_bps
]

-- The buying branch. `none` is the rejection "OVERFLOW".
size_buy : Config → Request → Minor → Option Reservation
size_buy cfg req bound = elim (notional_ceil req.qty bound) [
  | none ↦ none
  | some amount ↦ elim (fee_bps amount cfg.taker_fee_bps) [
    | none ↦ none
    | some fee ↦ elim (add amount fee) [
      | none ↦ none
      | some total ↦ some (record {
        kind = ResKind.cash;
        symbol = [];
        amount = total;
        unit_price = bound;
        fee_bps = cfg.taker_fee_bps;
      })
    ]
  ]
]

-- sizeReservation
unfoldable pub size_reservation : Config → Request → Minor → Option Reservation
unfolding size_buy
size_reservation cfg req ref = elim req.side [
  | Side.sell ↦ some (record {
    kind = ResKind.shares;
    symbol = req.symbol;
    amount = req.qty;
    unit_price = pos 0;
    fee_bps = pos 0;
  })
  | Side.buy ↦ elim (price_bound cfg req ref) [ none ↦ none | some bound ↦ size_buy cfg req bound ]
]

-- The row that insertOrder writes for an accepted order: nothing consumed, nothing released, and a
-- price that is not positive is NULL.
abbrev pub reservation_row : Uuid → Reservation → ReservationRow
reservation_row account r = record {
  account = account;
  kind = r.kind;
  symbol = r.symbol;
  reserved = r.amount;
  consumed = pos 0;
  released = pos 0;
  unit_price = (if ltb_ℤ (pos 0) r.unit_price then some r.unit_price else none);
  fee_bps = r.fee_bps;
}

-- The closure `owed` of settleReservation: the reservation that a filled quantity justifies.
unfoldable pub owed : Minor → ℤ → Qty → ℤ
owed unit_price bps q = elim (notional_ceil q unit_price) [
  | none ↦ pos 0
  | some n ↦ elim (fee_bps n bps) [ none ↦ n | some f ↦ add64 n f ]
]

-- What one fill spends: its cash outlay for a buy, its shares for a sale.
abbrev pub fill_cost : Bool → Qty → Minor → Minor → ℤ
fill_cost true fill_qty notional fee = add64 notional fee
fill_cost false fill_qty notional fee = fill_qty

-- The headroom that the fill no longer needs, before the clamp.
abbrev pub surplus : Bool → Option ℤ → ℤ → Qty → Qty → ℤ → ℤ
surplus false price bps prior_qty fill_qty cost = pos 0
surplus true none bps prior_qty fill_qty cost = pos 0
surplus true (some price) bps prior_qty fill_qty cost =
    sub64 (sub64 (owed price bps (add64 prior_qty fill_qty)) (owed price bps prior_qty)) cost

-- The two clamps: never more than the headroom, never below zero.
abbrev pub clamp : ℤ → ℤ → ℤ
clamp headroom release =
    let r = if ltb_ℤ headroom release then headroom else release in
    if ltb_ℤ r (pos 0) then pos 0 else r

-- `UPDATE reservations SET consumed = …, released = …` under the two CHECKs of the table.
unfoldable pub update_row : ReservationRow → ℤ → ℤ → Tx ReservationRow
update_row r consumed released = do
  c ← bigint consumed
  d ← bigint released
  let ok_row =
      leb_ℤ (c +ℤ d) r.reserved && leb_ℤ (pos 0) c && leb_ℤ (pos 0) d && leb_ℤ (pos 0) r.reserved
  if ok_row then pure (record r { consumed = c; released = d }) else fail reservation_check

-- settleReservation, on the row.
unfoldable pub settle_row : ReservationRow → Bool → Qty → Qty → Minor → Minor → Tx ReservationRow
settle_row r buying prior_qty fill_qty notional fee =
    let cost = fill_cost buying fill_qty notional fee in
    let headroom = sub64 (sub64 (sub64 r.reserved r.consumed) r.released) cost in
    let release = clamp headroom (surplus buying r.unit_price r.fee_bps prior_qty fill_qty cost) in
    update_row r (r.consumed +ℤ cost) (r.released +ℤ release)

-- settleReservation
unfoldable pub settle_reservation : Uuid → Bool → Qty → Qty → Minor → Minor → Tx ⊤
settle_reservation order buying prior_qty fill_qty notional fee = do
  r ← or_fail (← gets (λ db. lookup order db.reservations)) no_reservation
  r' ← settle_row r buying prior_qty fill_qty notional fee
  modify (λ db. record db { reservations = insert order r' db.reservations })
