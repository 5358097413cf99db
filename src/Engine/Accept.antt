-- ===== src/Engine/Accept.antt =====
-- Accepting an order in internal/engine/submit.go: Submit, accept, riskCheck, insertOrder and
-- enqueueAccepted; and balances of engine.go.
pub mod Solvent
mod Tests
use trade_execution_operatin.Common.{
  ℕ, Bool, true, false, ◌&&◌, ◌==◌, Option, none, some, List, [], ◌∷◌, ◌++◌, if◌then◌else◌,
}
use trade_execution_operatin.Common.Int.{ℤ, pos, ◌+ℤ◌, ◌-ℤ◌, leb_ℤ, ltb_ℤ}
use trade_execution_operatin.Common.Int64.{sub64}
use trade_execution_operatin.Common.Dict.{Dict, lookup, insert}
use trade_execution_operatin.Common.Names.{name_eq}
use trade_execution_operatin.Money.{Minor, Qty}
use trade_execution_operatin.Book.{Uuid, Name, Side, OrderType, Tif}
use trade_execution_operatin.Engine.Db.{
  Status, accepted, rejected, ResKind, OrderRow, ReservationRow, PositionRow, OutboxRow, Db, Error,
  notional_overflow, reservation_check, Tx, ⊤, pure, fail, gets, modify, bigint, bind_result, ok,
  err, ◌>>=◌, ◌>>◌,
}
use trade_execution_operatin.Engine.Reservation.{
  Config, Request, Reservation, size_reservation, reservation_row,
}
use trade_execution_operatin.Engine.Ledger.{lock_account, balance_row, in_tx}

-- reserved - consumed - released
abbrev pub open_of : ReservationRow → ℤ
open_of r = r.reserved -ℤ r.consumed -ℤ r.released

abbrev pub is_cash : ResKind → Bool
is_cash ResKind.cash = true
is_cash ResKind.shares = false

-- sum(reserved - consumed - released) over the cash reservations of an account.
unfoldable pub open_cash : Uuid → Dict ReservationRow → ℤ
open_cash account [] = pos 0
open_cash account (e ∷ rs) =
    let rest = open_cash account rs in
    if (e.1.account == account) && is_cash e.1.kind then open_of e.1 +ℤ rest else rest

-- The same over the share reservations of one symbol.
unfoldable pub open_shares : Uuid → Name → Dict ReservationRow → ℤ
open_shares account symbol [] = pos 0
open_shares account symbol (e ∷ rs) =
    let rest = open_shares account symbol rs in
    if is_cash e.1.kind
    then rest
    else if (e.1.account == account) && name_eq e.1.symbol symbol
    then open_of e.1 +ℤ rest
    else rest

-- type Balances
pub record Balances : Type 0 where
  pub cash : ℤ
  pub reserved_cash : ℤ
  pub buying_power : ℤ
  pub fees : ℤ

-- balances
unfoldable pub balances : Uuid → Tx Balances
unfolding open_cash
balances account = do
  row ← gets (λ db. balance_row (lookup account db.balances))
  reserved ← bigint (← gets (λ db. open_cash account db.reservations))
  pure (record {
    cash = row.cash;
    reserved_cash = reserved;
    buying_power = sub64 row.cash reserved;
    fees = row.fees;
  })

-- coalesce((SELECT qty FROM positions …), 0)
abbrev pub held_qty : Uuid → Name → List PositionRow → ℤ
held_qty account symbol [] = pos 0
held_qty account symbol (p ∷ ps) =
    let rest = held_qty account symbol ps in
    if (p.account == account) && name_eq p.symbol symbol then p.state.qty else rest

-- The answer of riskCheck.
pub data Risk : Type 0 where
  passes insufficient_buying_power insufficient_shares : Risk

-- riskCheck
unfoldable pub risk_check : Request → Reservation → Tx Risk
unfolding balances open_shares
risk_check req res = elim res.kind [
  | ResKind.cash ↦ do
    b ← balances req.account
    pure (if ltb_ℤ b.buying_power res.amount then Risk.insufficient_buying_power else Risk.passes)
  | ResKind.shares ↦ do
    held ← gets (λ db. held_qty req.account req.symbol db.positions)
    reserved ← bigint (← gets (λ db. open_shares req.account req.symbol db.reservations))
    pure (if ltb_ℤ (sub64 held reserved) res.amount then Risk.insufficient_shares else Risk.passes)
]

-- loadOrderByClientID
unfoldable pub load_by_client_id : Uuid → Name → Dict OrderRow → Option OrderRow
load_by_client_id account client [] = none
load_by_client_id account client (e ∷ os) =
    let rest = load_by_client_id account client os in
    if (e.1.account == account) && name_eq e.1.client_order_id client then some e.1 else rest

-- The view that accept starts from, with its status and reject reason.
abbrev pub new_order : Uuid → Request → Minor → Status → Option Name → OrderRow
new_order id req ref status reason = record {
  id = id;
  account = req.account;
  symbol = req.symbol;
  side = req.side;
  order_type = req.order_type;
  tif = req.tif;
  qty = req.qty;
  limit_price = req.limit_price;
  ref_price = ref;
  status = status;
  reject_reason = reason;
  filled_qty = pos 0;
  filled_notional = pos 0;
  client_order_id = req.client_order_id;
}

-- insertOrder. The row has NULL for the limit price of a market order and for a reference price that
-- is not positive; loadOrderByClientID reads a NULL price as zero.
abbrev pub stored_limit : OrderType → Minor → Minor
stored_limit OrderType.limit p = p
stored_limit OrderType.market p = pos 0

abbrev pub stored : OrderRow → OrderRow
stored v = record v {
  limit_price = stored_limit v.order_type v.limit_price;
  ref_price = (if ltb_ℤ (pos 0) v.ref_price then v.ref_price else pos 0);
}

abbrev pub insert_order_row : OrderRow → Tx ⊤
insert_order_row v = modify (λ db. record db { orders = insert v.id (stored v) db.orders })

-- The CHECKs of the table on a new reservation: an amount that is not negative, and a symbol where it
-- holds shares.
abbrev pub reservation_fits : ResKind → Name → Minor → Bool
reservation_fits ResKind.cash symbol amount = leb_ℤ (pos 0) amount
reservation_fits ResKind.shares [] amount = false
reservation_fits ResKind.shares (c ∷ cs) amount = leb_ℤ (pos 0) amount

abbrev pub insert_reservation : OrderRow → Reservation → Tx ⊤
insert_reservation v res =
    if reservation_fits res.kind res.symbol res.amount
    then modify (λ db. record db {
      reservations = insert v.id (reservation_row v.account res) db.reservations;
    })
    else fail reservation_check

-- enqueueAccepted
abbrev pub enqueue_accepted : OrderRow → Tx ⊤
enqueue_accepted v =
    modify (λ db. record db { outbox = db.outbox ++ OutboxRow.order_accepted v ∷ [] })

-- "INSUFFICIENT_BUYING_POWER" and "INSUFFICIENT_SHARES"
abbrev pub buying_power_reason : Name
buying_power_reason =
    73 ∷ 78 ∷ 83 ∷ 85 ∷ 70 ∷ 70 ∷ 73 ∷ 67 ∷ 73 ∷ 69 ∷ 78 ∷ 84 ∷ 95 ∷ 66 ∷ 85 ∷ 89 ∷ 73 ∷ 78 ∷ 71
    ∷ 95 ∷ 80 ∷ 79 ∷ 87 ∷ 69 ∷ 82 ∷ []

abbrev pub shares_reason : Name
shares_reason =
    73 ∷ 78 ∷ 83 ∷ 85 ∷ 70 ∷ 70 ∷ 73 ∷ 67 ∷ 73 ∷ 69 ∷ 78 ∷ 84 ∷ 95 ∷ 83 ∷ 72 ∷ 65 ∷ 82 ∷ 69 ∷ 83
    ∷ []

-- What accept does with the answer of riskCheck.
unfoldable pub decide : Uuid → Request → Minor → Reservation → Risk → Tx OrderRow
decide id req ref res Risk.passes =
    let v = new_order id req ref accepted none in
    do insert_order_row v; insert_reservation v res; enqueue_accepted v; pure v
decide id req ref res Risk.insufficient_buying_power =
    let v = new_order id req ref rejected (some buying_power_reason) in
    do insert_order_row v; pure v
decide id req ref res Risk.insufficient_shares =
    let v = new_order id req ref rejected (some shares_reason) in do insert_order_row v; pure v

-- accept, for a client order id that is new: the rejection OVERFLOW of sizeReservation is an error.
unfoldable pub accept_new : Config → Uuid → Request → Minor → Option Reservation → Tx OrderRow
accept_new cfg id req ref none = fail notional_overflow
accept_new cfg id req ref (some res) = do risk ← risk_check req res; decide id req ref res risk

abbrev pub accept_found : Config → Uuid → Request → Minor → Option OrderRow → Tx OrderRow
accept_found cfg id req ref (some v) = pure v
accept_found cfg id req ref none = accept_new cfg id req ref (size_reservation cfg req ref)

-- accept, for the order id that uuid.New made up.
unfoldable pub accept : Config → Option ℕ → Uuid → Request → Minor → Tx OrderRow
unfolding accept_new load_by_client_id
accept cfg lease id req ref = in_tx lease (do
  lock_account req.account
  found ← gets (λ db. load_by_client_id req.account req.client_order_id db.orders)
  accept_found cfg id req ref found)
