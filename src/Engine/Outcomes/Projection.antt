-- ===== src/Engine/Outcomes/Projection.antt =====
-- The balance projection through applyFillHalf of internal/engine/outcomes.go.
use mathlib.Core.Path.{subst}
use trade_execution_operatin.Common.{
  ℕ, ◌+◌, ◌≡◌, ◌∙◌, ap, Bool, Option, some, if◌then◌else◌, arith, Option-cases, inl, inr,
}
use trade_execution_operatin.Common.Int.{ℤ, pos, ◌+ℤ◌, int_laws}
use trade_execution_operatin.Common.Int64.{
  neg64, IsInt64, wrap64, wrap64_id, wrap64-IsInt64, add64, sub64,
}
use trade_execution_operatin.Common.Dict.{lookup, insert}
use trade_execution_operatin.Money.{Minor, Qty, fee_bps}
use trade_execution_operatin.Money
use trade_execution_operatin.Book.{Name}
use trade_execution_operatin.Engine.Db.{
  LedgerKind, OrderRow, Db, no_such_order, fee_overflow, notional_overflow, ok,
}
use trade_execution_operatin.Engine.Db.Hoare.{
  Leads, Keeps, Leads-pure, Leads-gets, Leads-modify, Leads-or_fail, Leads-bind, Leads-ok,
}
use trade_execution_operatin.Common.{none-ne-some}
use trade_execution_operatin.Engine.Reservation.{Config}
use trade_execution_operatin.Engine.Reservation.Frame.{settle_reservation-Keeps}
use trade_execution_operatin.Engine.Orders.Frame.{advance_order_fill-Keeps}
use trade_execution_operatin.Engine.Ledger.{
  delta, Written, written, duplicate_event, write_txn, half_fill_legs,
}
use trade_execution_operatin.Engine.Ledger.Frame.{lock_account-Keeps, in_tx-Leads}
use trade_execution_operatin.Engine.Ledger.Sums.{Summed, leg_total, write_txn-Summed}
use trade_execution_operatin.Engine.Outcomes.{
  FillHalf, record_fill, fee_of, fill_txn, settle_half, fill_half_tx, apply_fill_half,
}
use trade_execution_operatin.Engine.Outcomes.Exactly.{apply_position_delta-Keeps, record_fill-Keeps}

-- A sum that starts at zero and takes one amount in range does not wrap.
one_amount : (z : ℤ) → IsInt64 z → add64 (pos 0) z ≡ z
one_amount z h = ap wrap64 (let e : pos 0 +ℤ z ≡ z = omega int_laws in e) ∙ wrap64_id z h

add64_zero : (z : ℤ) → IsInt64 z → add64 z (pos 0) ≡ z
add64_zero z h = ap wrap64 (let e : z +ℤ pos 0 ≡ z = omega int_laws in e) ∙ wrap64_id z h

exact_zero : pos 0 +ℤ pos 0 ≡ pos 0
exact_zero = omega int_laws

trailing_zeros : (z : ℤ) → z ≡ z +ℤ (pos 0 +ℤ (pos 0 +ℤ (pos 0 +ℤ (pos 0 +ℤ pos 0))))
trailing_zeros z = omega int_laws

leading_zero : (z : ℤ) → z ≡ pos 0 +ℤ (z +ℤ (pos 0 +ℤ (pos 0 +ℤ (pos 0 +ℤ pos 0))))
leading_zero z = omega int_laws

some-inj : {x y : ℤ} → some x ≡ some y → x ≡ y
some-inj e = cc

module _ (symbol : Name) (qty : Qty) (notional fee : Minor) (small : IsInt64 fee)
    (buying : Bool) where
  half_fill-cash :
      delta LedgerKind.cash (half_fill_legs symbol qty notional fee buying) (pos 0)
      ≡ leg_total LedgerKind.cash (half_fill_legs symbol qty notional fee buying)
  unfolding half_fill_legs delta leg_total
  half_fill-cash =
      let cash = sub64 (neg64 (if buying then notional else neg64 notional)) fee in
      let fits : IsInt64 cash = wrap64-IsInt64 _ in
      let more = add64_zero cash fits in
      rw (one_amount cash fits, more, more, more, more) (trailing_zeros cash)

  half_fill-fees :
      delta LedgerKind.fees (half_fill_legs symbol qty notional fee buying) (pos 0)
      ≡ leg_total LedgerKind.fees (half_fill_legs symbol qty notional fee buying)
  unfolding half_fill_legs delta leg_total
  half_fill-fees =
      let zero : IsInt64 (pos 0) = (omega arith, omega arith) in
      let more = add64_zero fee small in
      rw (add64_zero (pos 0) zero, one_amount fee small, more, more, more) (leading_zero fee)

fee_of-IsInt64 :
    (cfg : Config) (taker : Bool) (prior notional fee : Minor)
    → fee_of cfg taker prior notional ≡ some fee
    → IsInt64 fee
unfolding fee_of
fee_of-IsInt64 cfg taker prior notional fee e =
    let bps = if taker then cfg.taker_fee_bps else cfg.maker_fee_bps in
    elim (Option-cases (fee_bps prior bps)) [
      | inl none_before ↦ absurd (none-ne-some (rw (none_before, fee_of) at e))
      | inr (before, eb) ↦ elim (Option-cases (fee_bps (add64 prior notional) bps)) [
        | inl none_after ↦ absurd (none-ne-some (rw (eb, none_after, fee_of) at e))
        | inr (after, ea) ↦
            let r : some (sub64 after before) ≡ some fee = rw (eb, ea, fee_of) at e in
            subst IsInt64 (some-inj r) (wrap64-IsInt64 _)
      ]
    ]

settle_half-Summed :
    (msg : FillHalf) (o : OrderRow) (notional fee : Minor) (w : Written)
    → Keeps Summed (settle_half msg o notional fee w)
unfolding settle_half
settle_half-Summed msg o notional fee duplicate_event = Leads-pure tt λ db h. h
settle_half-Summed msg o notional fee written =
    Leads-bind
      (apply_position_delta-Keeps (λ db ps h. h) msg.account msg.symbol msg.qty notional fee
        msg.buying)
      λ _.
        Leads-bind
          (settle_reservation-Keeps (λ db rs h. h) msg.order_id msg.buying o.filled_qty msg.qty
            notional fee)
          λ _. advance_order_fill-Keeps (λ db rs h. h) msg.order_id (λ db o h. h) msg.qty notional

record_fill-Summed : (msg : FillHalf) → Keeps Summed (record_fill msg)
record_fill-Summed msg = record_fill-Keeps msg (λ db fs h. h)

write_half :
    (msg : FillHalf) (seq : ℕ) (notional fee : Minor)
    → Leads
        (λ db. Summed db × IsInt64 fee)
        (write_txn (fill_txn msg seq notional fee))
        (λ w. Summed)
write_half msg seq notional fee = record {
  run = λ db (h, small).
      (write_txn-Summed (fill_txn msg seq notional fee)
          (half_fill-cash msg.symbol msg.qty notional fee small msg.buying)
          (half_fill-fees msg.symbol msg.qty notional fee small msg.buying)).run
        db h;
}

fill_half_tx-Summed :
    (cfg : Config) (partition offset : ℕ) (msg : FillHalf) (notional : Minor)
    → Keeps Summed (fill_half_tx cfg partition offset msg notional)
unfolding fill_half_tx
fill_half_tx-Summed cfg partition offset msg notional =
    Leads-bind
      (Leads-modify {P = Summed} {Q = λ _. Summed}
        (λ db. record db { offsets = insert partition (offset + 1) db.offsets }) λ db h. h)
      λ _. Leads-bind (lock_account-Keeps msg.account) λ seq.
        Leads-bind (record_fill-Summed msg) λ _.
          Leads-bind (Leads-gets (λ db. lookup msg.order_id db.orders) λ db h. h) λ found.
            Leads-bind (Leads-or_fail {Q = λ o. Summed} found no_such_order λ db o e h. h) λ o.
              Leads-bind
                (Leads-or_fail {Q = λ fee db. Summed db × IsInt64 fee}
                  (fee_of cfg msg.taker o.filled_notional notional) fee_overflow
                  λ db fee e h. (h, fee_of-IsInt64 cfg msg.taker o.filled_notional notional fee e))
                λ fee.
                  Leads-bind (write_half msg seq notional fee)
                    λ w. settle_half-Summed msg o notional fee w

-- A fill half that is applied keeps the projection equal to the ledger: if every account's balance row
-- was the sum of its cash postings and of its fee postings before, it is so after, whatever the amounts.
pub apply_fill_half-Summed :
    (cfg : Config) (lease : Option ℕ) (partition offset : ℕ) (msg : FillHalf) (db db' : Db)
    → apply_fill_half cfg lease partition offset msg db ≡ ok (tt, db')
    → Summed db
    → Summed db'
unfolding apply_fill_half
apply_fill_half-Summed cfg lease partition offset msg db db' e h =
    Leads-ok
      (Leads-bind {Q = λ n. Summed}
        (Leads-or_fail (Money.notional msg.qty msg.price) notional_overflow λ db n e h. h)
        λ n. in_tx-Leads lease (fill_half_tx-Summed cfg partition offset msg n))
      db db' tt e h
