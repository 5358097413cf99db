-- ===== src/Engine/Orders/Frame.antt =====
-- What advanceOrderFill of internal/engine/outcomes.go leaves alone: it writes the row of its order
-- and reservations.
use trade_execution_operatin.Common.{Option, none, some}
use trade_execution_operatin.Common.Int.{◌+ℤ◌, ◌-ℤ◌, eqb_ℤ}
use trade_execution_operatin.Common.Dict.{Dict, lookup, insert}
use trade_execution_operatin.Money.{Minor, Qty}
use trade_execution_operatin.Book.{Uuid}
use trade_execution_operatin.Engine.Db.{OrderRow, ReservationRow, Db}
use trade_execution_operatin.Engine.Db.Hoare.{
  Keeps, Leads-pure, Leads-gets, Leads-modify, Leads-if, Keeps-bigint, Leads-bind,
}
use trade_execution_operatin.Engine.Reservation.Frame.{update_row-Keeps}
use trade_execution_operatin.Engine.Orders.{
  is_terminal, advance_status, release_row, release_found, release_if_terminal, advance_found,
  advance_order_fill,
}

module _ {P : Db → Type 0}
    (frees : (db : Db) (rs : Dict ReservationRow)
      → P db
      → P (record db { reservations = rs })) where
  release_row-Keeps : (id : Uuid) (found : Option ReservationRow) → Keeps P (release_row id found)
  unfolding release_row
  release_row-Keeps id none = Leads-pure tt λ db p. p
  release_row-Keeps id (some r) =
      Leads-if (eqb_ℤ (r.consumed +ℤ r.released) r.reserved) (Leads-pure tt λ db p. p) (
        Leads-bind (update_row-Keeps r r.consumed (r.reserved -ℤ r.consumed)) λ r'.
          Leads-modify (λ db. record db { reservations = insert id r' db.reservations })
            λ db p. frees db (insert id r' db.reservations) p)

  release_found-Keeps : (id : Uuid) (found : Option OrderRow) → Keeps P (release_found id found)
  unfolding release_found
  release_found-Keeps id none = Leads-pure tt λ db p. p
  release_found-Keeps id (some o) =
      Leads-if (is_terminal o.status)
        (record { run = λ db p. (release_row-Keeps id (lookup id db.reservations)).run db p })
        (Leads-pure tt λ db p. p)

  pub release_if_terminal-Keeps : (id : Uuid) → Keeps P (release_if_terminal id)
  unfolding release_if_terminal
  release_if_terminal-Keeps id = record {
    run = λ db p. (release_found-Keeps id (lookup id db.orders)).run db p;
  }

  module _ (id : Uuid)
      (moves : (db : Db) (o : OrderRow)
        → P db
        → P (record db { orders = insert id o db.orders })) where
    advance_found-Keeps :
        (qty : Qty) (notional : Minor) (found : Option OrderRow)
        → Keeps P (advance_found id qty notional found)
    unfolding advance_found
    advance_found-Keeps qty notional none = Leads-pure tt λ db p. p
    advance_found-Keeps qty notional (some o) = Leads-bind (Keeps-bigint (o.filled_qty +ℤ qty)) λ q.
        Leads-bind (Keeps-bigint (o.filled_notional +ℤ notional)) λ n. record {
          run = λ db p.
              moves db
                (record o {
                  filled_qty = q;
                  filled_notional = n;
                  status = advance_status o.status q o.qty;
                })
                p;
        }

    pub advance_order_fill-Keeps :
        (qty : Qty) (notional : Minor) → Keeps P (advance_order_fill id qty notional)
    unfolding advance_order_fill
    advance_order_fill-Keeps qty notional = Leads-bind (Leads-gets _ λ db p. p) λ found.
        Leads-bind (advance_found-Keeps qty notional found) λ _. release_if_terminal-Keeps id
