-- ===== src/Engine/Tests.antt =====
-- Runs of internal/engine on small states, and the theorems at them.
use trade_execution_operatin.Common.{
  ℕ, ◌≡◌, ◌+◌, ◌≤◌, refl, true, false, none, some, [], ◌∷◌, arith,
}
use trade_execution_operatin.Common.Int.{pos, negsuc, ◌≤ℤ◌, ◌+ℤ◌, ◌-ℤ◌}
use trade_execution_operatin.Common.Int64.{to_u64, wrap64, add64, sub64}
use trade_execution_operatin.Money.{notional_ceil, notional_rem, mul_div, round_away, fee_bps, add}
use trade_execution_operatin.Book.{Side, OrderType, Tif}
use trade_execution_operatin.Engine.Db.{
  accepted, OrderRow, ReservationRow, ResKind, Db, ok, err, reservation_check, lease_lost, pure,
}
use trade_execution_operatin.Engine.Position.{PositionState, apply, apply_sell}
use trade_execution_operatin.Engine.Position.Accounting.{
  apply_conserves, apply_sell_closes, apply_sell_proportional, apply_sell_overflow,
}
use trade_execution_operatin.Engine.Reservation.{
  Config, Request, Reservation, size_reservation, owed, settle_row,
}
use trade_execution_operatin.Engine.Reservation.Bound.{reservation_covers, settled}
use trade_execution_operatin.Engine.Reservation.Settle.{settle_row_fits, settle_row_refused}
use trade_execution_operatin.Engine.Ledger.{postings, txn_balanced, half_fill_legs, in_tx, commit}
use trade_execution_operatin.Engine.Ledger.Balanced.{half_fill_legs_balanced}
use trade_execution_operatin.Engine.Orders.{request_cancel_row, cancel_order_row}
use trade_execution_operatin.Engine.Orders.Machine.{
  Step, Reach, advance_row, IsHonest, Reach-IsHonest,
}
use trade_execution_operatin.Engine.Lease.{acquire, release}
use trade_execution_operatin.Engine.Lease.Fence.{Goes, fenced, release_unfences}
use trade_execution_operatin.Engine.Service.{
  ServiceLease, ServiceRow, acquire_service, renew_service,
}
use trade_execution_operatin.Engine.Service.Alive.{Attempt, attempts, renewed_excludes}

abbrev shares_held : PositionState
shares_held = record { qty = pos 3; basis = pos 100; realized = pos 0 }

apply_conserves_example :
    let p' = apply shares_held (negsuc 0) (pos 40) in
    sub64 p'.realized p'.basis ≡ add64 (sub64 (pos 0) (pos 100)) (pos 40)
apply_conserves_example = apply_conserves shares_held (negsuc 0) (pos 40)

apply_sell_closes_example :
    let p' = apply_sell shares_held (pos 3) (pos 130) in
    (p'.basis ≡ pos 0) × (p'.realized ≡ add64 (pos 0) (sub64 (pos 130) (pos 100)))
apply_sell_closes_example =
    apply_sell_closes shares_held (pos 3) (pos 130) (omega arith) (omega arith)

apply_sell_proportional_example :
    let p' = apply_sell shares_held (pos 1) (pos 40) in
    (p'.qty ≡ pos 2) × (p'.basis ≡ pos 67) × (33 ≤ 100)
apply_sell_proportional_example =
    apply_sell_proportional 100 1 3 (pos 0) (pos 40) (omega arith) (omega arith) (omega arith)
      (omega arith)

-- Nine shares held at a basis of 4 * 10^12, and three of them sold: the product passes 2^63.
apply_sell_overflow_example :
    (apply_sell
      (record { qty = pos 9000000; basis = pos 4000000000000; realized = pos 0 })
      (pos 3000000)
      (pos 0)).basis
    ≡ pos 4716304897078
apply_sell_overflow_example =
    apply_sell_overflow 4000000000000 3000000 9000000 (pos 0) (pos 0) (omega arith) (omega arith)
      (omega arith) (omega arith) (omega arith)

-- A limit buy of ten shares at 100.00, with a taker fee of 5 basis points.
abbrev config : Config
config = record { collar_bps = pos 500; taker_fee_bps = pos 5; maker_fee_bps = pos 3 }

abbrev request : Request
request = record {
  account = 1;
  client_order_id = 99 ∷ [];
  tif = Tif.gtc;
  symbol = 65 ∷ [];
  side = Side.buy;
  order_type = OrderType.limit;
  qty = pos 10000000;
  limit_price = pos 10000;
}

abbrev reservation : Reservation
reservation = record {
  kind = ResKind.cash;
  symbol = [];
  amount = pos 100050;
  unit_price = pos 10000;
  fee_bps = pos 5;
}

request_sized : size_reservation config request (pos 0) ≡ some reservation
unfolding size_reservation notional_ceil notional_rem mul_div to_u64 round_away fee_bps add wrap64
    ◌+ℤ◌
request_sized = refl

reservation_covers_example :
    (n fee : ℕ) × (settled ((4000000, 9990) ∷ (6000000, 10000) ∷ []) ≡ some (pos n))
    × (fee_bps (pos n) (pos 3) ≡ some (pos fee))
    × (pos (n + fee) ≤ℤ pos 100050)
reservation_covers_example =
    reservation_covers config request (pos 0) reservation 10000000 10000 5 3
      ((4000000, 9990) ∷ (6000000, 10000) ∷ []) refl refl refl refl (omega arith) (omega arith)
      (omega arith) request_sized (omega arith, (omega arith, tt)) (omega arith) (omega arith)

-- The row of that reservation, and three of its shares filled at 99.00 with a fee of 15.
abbrev row : ReservationRow
row = record {
  account = 1;
  kind = ResKind.cash;
  symbol = [];
  reserved = pos 100050;
  consumed = pos 0;
  released = pos 0;
  unit_price = some (pos 10000);
  fee_bps = pos 5;
}

abbrev db : Db
db = record {
  next_seq = (1, 1) ∷ [];
  txns = [];
  balances = [];
  positions = [];
  orders = [];
  reservations = (7, row) ∷ [];
  fills = [];
  offsets = [];
  lease = none;
  outbox = [];
}

settle_row_fits_example :
    (settle_row row true (pos 0) (pos 3000000) (pos 29700) (pos 15) db
      ≡ ok (record row { consumed = pos 29715; released = pos 300 }, db))
    × (29715 + (0 + 300) ≤ 100050)
unfolding wrap64 ◌+ℤ◌ ◌-ℤ◌ owed notional_ceil notional_rem mul_div round_away fee_bps
settle_row_fits_example =
    settle_row_fits row 100050 0 0 29715 db refl refl refl (omega arith) (omega arith) (omega arith)
      true (pos 0) (pos 3000000) (pos 29700) (pos 15) refl (omega arith)

settle_row_refused_example :
    settle_row row true (pos 0) (pos 10000000) (pos 100000) (pos 51) db ≡ err reservation_check
unfolding wrap64 ◌+ℤ◌
settle_row_refused_example =
    settle_row_refused row 100050 0 0 100051 db refl refl refl (omega arith) (omega arith)
      (omega arith) true (pos 0) (pos 10000000) (pos 100000) (pos 51) refl (omega arith)
      (omega arith)

half_fill_legs_balanced_example :
    txn_balanced (postings (half_fill_legs (65 ∷ []) (pos 3000000) (pos 29700) (pos 15) false))
    ≡ true
half_fill_legs_balanced_example =
    half_fill_legs_balanced 65 [] 29700 15 3000000 (λ e. cc) (omega arith) (omega arith) false

abbrev placed : OrderRow
placed = record {
  id = 7;
  account = 1;
  symbol = 65 ∷ [];
  side = Side.buy;
  order_type = OrderType.limit;
  tif = Tif.gtc;
  qty = pos 10;
  limit_price = pos 10000;
  ref_price = pos 10000;
  status = accepted;
  reject_reason = none;
  filled_qty = pos 0;
  filled_notional = pos 0;
  client_order_id = 99 ∷ [];
}

-- A cancel is asked for while the last fill is on its way, and the book's verdict comes last.
abbrev raced : OrderRow
raced = cancel_order_row false [] (advance_row (pos 10) (pos 5) (request_cancel_row placed))

raced_steps : Reach placed raced
raced_steps =
    Reach.next
      (Reach.next (Reach.next Reach.here Step.request) (Step.fill (pos 10) (pos 5) (omega arith)))
      (Step.verdict false [])

Reach-IsHonest_example : IsHonest raced
Reach-IsHonest_example = Reach-IsHonest raced_steps (λ full. cc)

fenced_example :
    in_tx (some 1) (pure tt) (acquire 12 (acquire 11 (acquire 10 db).1).1).1 ≡ err lease_lost
unfolding acquire
fenced_example =
    fenced (acquire 10 db).0 (acquire 10 db).1 (acquire 12 (acquire 11 (acquire 10 db).1).1).1 11
      (pure tt) refl (Goes.taken 12 Goes.stays)

release_unfences_example :
    let (first, db1) = acquire 10 db in
    let (second, db2) = acquire 11 db1 in
    let (third, db3) = acquire 12 (release second db2) in
    in_tx (some first.epoch) (pure tt) db3 ≡ commit db3.txns (ok (tt, db3))
release_unfences_example = release_unfences db 10 11 12 (pure tt) refl

abbrev claim : ServiceLease
claim = record { owner = 5; epoch = 2; ttl = 10 }

abbrev claimed : ServiceRow
claimed = record { owner = 5; epoch = 2; expires = 110 }

renewed_excludes_example :
    (acquire_service 6 10 109 (attempts (Attempt.acquire 6 10 105 ∷ []) (some claimed))
      ≡ (none, some claimed))
    × ((u : ℕ)
        → (renew_service claim u (attempts (Attempt.acquire 6 10 105 ∷ []) (some claimed))).0
          ≡ true)
unfolding renew_service
renewed_excludes_example =
    renewed_excludes claim 100 (some (record claimed { expires = 104 })) (some claimed)
      (Attempt.acquire 6 10 105 ∷ []) refl (omega arith, tt) 6 10 109 (omega arith)
