-- ===== src/Engine/Reservation/Frame.antt =====
-- What settleReservation of internal/engine/outcomes.go leaves alone: it writes reservations only.
use trade_execution_operatin.Common.{Bool}
use trade_execution_operatin.Common.Int.{ℤ}
use trade_execution_operatin.Common.Dict.{Dict, insert}
use trade_execution_operatin.Money.{Minor, Qty}
use trade_execution_operatin.Book.{Uuid}
use trade_execution_operatin.Engine.Db.{ReservationRow, Db, no_reservation, reservation_check}
use trade_execution_operatin.Engine.Db.Hoare.{
  Keeps, Leads-pure, Leads-gets, Leads-modify, Leads-or_fail, Leads-fail, Leads-if, Keeps-bigint,
  Leads-bind,
}
use trade_execution_operatin.Engine.Reservation.{update_row, settle_row, settle_reservation}

pub update_row-Keeps :
    {P : Db → Type 0} (r : ReservationRow) (consumed released : ℤ)
    → Keeps P (update_row r consumed released)
unfolding update_row
update_row-Keeps {P} r consumed released = Leads-bind (Keeps-bigint consumed) λ c.
    Leads-bind (Keeps-bigint released)
      λ d. Leads-if _ (Leads-pure _ λ db p. p) (Leads-fail reservation_check)

settle_row-Keeps :
    {P : Db → Type 0} (r : ReservationRow) (buying : Bool) (prior_qty fill_qty : Qty)
    (notional fee : Minor)
    → Keeps P (settle_row r buying prior_qty fill_qty notional fee)
unfolding settle_row
settle_row-Keeps r buying prior_qty fill_qty notional fee = update_row-Keeps r _ _

pub settle_reservation-Keeps :
    {P : Db → Type 0}
    → ((db : Db) (rs : Dict ReservationRow) → P db → P (record db { reservations = rs }))
    → (order : Uuid) (buying : Bool) (prior_qty fill_qty : Qty) (notional fee : Minor)
    → Keeps P (settle_reservation order buying prior_qty fill_qty notional fee)
unfolding settle_reservation
settle_reservation-Keeps stable order buying prior_qty fill_qty notional fee =
    Leads-bind (Leads-gets _ λ db p. p) λ found.
      Leads-bind (Leads-or_fail found no_reservation λ db r e p. p) λ r.
        Leads-bind (settle_row-Keeps r buying prior_qty fill_qty notional fee) λ r'.
          Leads-modify (λ db. record db { reservations = insert order r' db.reservations })
            λ db p. stable db (insert order r' db.reservations) p
