-- ===== src/Engine/Orders.antt =====
-- The order and reservation updates of internal/engine/outcomes.go and cancel.go: advanceOrderFill,
-- the statements of applyDisposition and applyCancelOutcome, releaseIfTerminal and isTerminal.
pub mod Machine
pub mod Frame
use trade_execution_operatin.Common.{
  ℕ, Bool, true, false, not, ◌&&◌, Option, none, some, if◌then◌else◌,
}
use trade_execution_operatin.Common.Int.{ℤ, pos, ◌+ℤ◌, ◌-ℤ◌, leb_ℤ, ltb_ℤ, eqb_ℤ}
use trade_execution_operatin.Common.Dict.{lookup, insert}
use trade_execution_operatin.Money.{Minor, Qty}
use trade_execution_operatin.Book.{Uuid, Name, Disposition}
use trade_execution_operatin.Engine.Db.{
  Status, accepted, partially_filled, filled, cancelled, rejected, pending_cancel, expired,
  OrderRow, ReservationRow, Db, Error, Tx, ⊤, pure, gets, modify, bigint, ok, err, bind_result,
  ◌>>=◌, ◌>>◌,
}
use trade_execution_operatin.Engine.Reservation.{update_row}

-- isTerminal, and the SQL list ('FILLED','CANCELLED','REJECTED','EXPIRED').
abbrev pub is_terminal : Status → Bool
is_terminal filled = true
is_terminal cancelled = true
is_terminal rejected = true
is_terminal expired = true
is_terminal accepted = false
is_terminal partially_filled = false
is_terminal pending_cancel = false

abbrev pub is_pending : Status → Bool
is_pending pending_cancel = true
is_pending accepted = false
is_pending partially_filled = false
is_pending filled = false
is_pending cancelled = false
is_pending rejected = false
is_pending expired = false

-- An UPDATE of one row: no row, no effect.
abbrev pub update_found : Uuid → (OrderRow → OrderRow) → Option OrderRow → Db → Db
update_found id f none db = db
update_found id f (some o) db = record db { orders = insert id (f o) db.orders }

abbrev pub update_order : Uuid → (OrderRow → OrderRow) → Tx ⊤
update_order id f = modify (λ db. update_found id f (lookup id db.orders) db)

-- coalesce(reject_reason, $2)
abbrev pub coalesce : Option Name → Option Name → Option Name
coalesce none reason = reason
coalesce (some r) reason = some r

-- releaseIfTerminal: `SET released = reserved - consumed` unless the row is settled already.
release_row : Uuid → Option ReservationRow → Tx ⊤
release_row id none = pure tt
release_row id (some r) =
    let release : Tx ⊤ = do
      r' ← update_row r r.consumed (r.reserved -ℤ r.consumed)
      modify (λ db. record db { reservations = insert id r' db.reservations })
    in if eqb_ℤ (r.consumed +ℤ r.released) r.reserved then pure tt else release

release_found : Uuid → Option OrderRow → Tx ⊤
unfolding release_row
release_found id none = pure tt
release_found id (some o) =
    let release : Tx ⊤ = λ db. release_row id (lookup id db.reservations) db in
    if is_terminal o.status then release else pure tt

unfoldable pub release_if_terminal : Uuid → Tx ⊤
unfolding release_found
release_if_terminal id db = release_found id (lookup id db.orders) db

-- The CASE of advanceOrderFill, on the quantity filled so far.
unfoldable pub advance_status : Status → ℤ → ℤ → Status
advance_status s filled_qty qty =
    if leb_ℤ qty filled_qty
    then filled
    else if is_pending s
    then pending_cancel
    else partially_filled

advance_found : Uuid → Qty → Minor → Option OrderRow → Tx ⊤
unfolding advance_status
advance_found id qty notional none = pure tt
advance_found id qty notional (some o) = do
  filled_qty ← bigint (o.filled_qty +ℤ qty)
  filled_notional ← bigint (o.filled_notional +ℤ notional)
  modify (λ db. record db {
    orders =
        insert id
          (record o {
            filled_qty = filled_qty;
            filled_notional = filled_notional;
            status = advance_status o.status filled_qty o.qty;
          })
          db.orders;
  })

-- advanceOrderFill
unfoldable pub advance_order_fill : Uuid → Qty → Minor → Tx ⊤
unfolding advance_found release_if_terminal
advance_order_fill id qty notional = do
  found ← gets (λ db. lookup id db.orders)
  advance_found id qty notional found
  release_if_terminal id

-- The target status of applyDisposition, and its CASE.
abbrev pub disposition_status : Disposition → Status
disposition_status Disposition.complete = filled
disposition_status Disposition.rested = accepted
disposition_status Disposition.cancelled = cancelled

abbrev pub settled_status : Disposition → ℤ → Status
settled_status d filled_qty = elim (disposition_status d) [
  | accepted ↦ if ltb_ℤ (pos 0) filled_qty then partially_filled else accepted
  | s ↦ s
]

-- The row after applyDisposition: rows that are terminal or await a cancel are left alone.
unfoldable pub dispose_order : Disposition → Option Name → OrderRow → OrderRow
dispose_order d reason o =
    if is_terminal o.status then o else if is_pending o.status then o else record o {
      status = settled_status d o.filled_qty;
      reject_reason = coalesce o.reject_reason reason;
    }

-- The row after applyCancelOutcome: the book removed the order, or it had nothing to remove.
unfoldable pub cancel_order_row : Bool → Name → OrderRow → OrderRow
cancel_order_row true reason o =
    if is_terminal o.status
    then o
    else record o { status = cancelled; reject_reason = coalesce o.reject_reason (some reason) }
cancel_order_row false reason o =
    if is_pending o.status
    then record o {
      status = (if leb_ℤ o.qty o.filled_qty then filled else cancelled);
      reject_reason = coalesce o.reject_reason (some reason);
    }
    else o

-- The UPDATE of RequestCancel in cancel.go: an order that is terminal or already asked stays.
unfoldable pub request_cancel_row : OrderRow → OrderRow
request_cancel_row o =
    if is_terminal o.status
    then o
    else if is_pending o.status
    then o
    else record o { status = pending_cancel }
