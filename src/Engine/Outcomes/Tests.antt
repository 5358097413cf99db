-- ===== src/Engine/Outcomes/Tests.antt =====
-- A fill half that internal/engine/outcomes.go applies, and applies again.
use trade_execution_operatin.Common.{◌≡◌, refl, arith, true, none, some, [], ◌∷◌}
use trade_execution_operatin.Common.Int.{pos, ◌+ℤ◌, ◌-ℤ◌}
use trade_execution_operatin.Common.Dict.{lookup, insert}
use trade_execution_operatin.Common.Int64.{to_u64, of_u64, wrap64}
use trade_execution_operatin.Money.{
  notional, notional_ceil, notional_rem, mul_div, round_away, fee_bps,
}
use trade_execution_operatin.Book.{Side, OrderType, Tif}
use trade_execution_operatin.Engine.Db.{
  accepted, partially_filled, OrderRow, ResKind, Db, Result, ok, err, ⊤,
}
use trade_execution_operatin.Engine.Reservation.{
  Config, owed, update_row, settle_row, settle_reservation,
}
use trade_execution_operatin.Engine.Ledger.{
  assert_lease, lock_account, delta, insert_txn, write_txn, unit_total, update_balance,
  txn_balanced, in_tx, half_fill_legs,
}
use trade_execution_operatin.Engine.Orders.{advance_status, advance_order_fill, release_if_terminal}
use trade_execution_operatin.Engine.Position.{apply_buy}
use trade_execution_operatin.Common.Names.{name_eq}
use trade_execution_operatin.Engine.Outcomes.{
  FillHalf, record_fill, update_position, apply_position_delta, fee_of, settle_half, fill_half_tx,
  apply_fill_half,
}
use trade_execution_operatin.Engine.Ledger.Sums.{ledger_total, Summed}
use trade_execution_operatin.Engine.Outcomes.Projection.{apply_fill_half-Summed}
use trade_execution_operatin.Engine.Outcomes.Exactly.{apply_fill_half_once}
use trade_execution_operatin.Engine.Outcomes.Derived.{Sequenced}
use trade_execution_operatin.Engine.Outcomes.Replayed.{
  ProjectsPositions, apply_fill_half-replay_account,
}
use trade_execution_operatin.Engine.Replay.{
  replay_account, replay_account_range, txns_between, join_rows, replay_rows, flush,
}
use trade_execution_operatin.Engine.Replay.Projected.{projected_positions}

abbrev config : Config
config = record { collar_bps = pos 500; taker_fee_bps = pos 5; maker_fee_bps = pos 3 }

abbrev order : OrderRow
order = record {
  id = 7;
  account = 1;
  symbol = 65 ∷ [];
  side = Side.buy;
  order_type = OrderType.limit;
  tif = Tif.gtc;
  qty = pos 10000000;
  limit_price = pos 10000;
  ref_price = pos 10000;
  status = accepted;
  reject_reason = none;
  filled_qty = pos 0;
  filled_notional = pos 0;
  client_order_id = 99 ∷ [];
}

abbrev db : Db
db = record {
  next_seq = (1, 1) ∷ [];
  txns = [];
  balances = [];
  positions = [];
  orders = (7, order) ∷ [];
  reservations =
      (
        7,
        record {
          account = 1;
          kind = ResKind.cash;
          symbol = [];
          reserved = pos 100050;
          consumed = pos 0;
          released = pos 0;
          unit_price = some (pos 10000);
          fee_bps = pos 5;
        },
      )
      ∷ [];
  fills = [];
  offsets = [];
  lease = none;
  outbox = [];
}

-- Three of ten shares, bought at 99.00.
abbrev half : FillHalf
half = record {
  event_id = 21;
  fill_id = 20;
  shard_id = 0;
  symbol = 65 ∷ [];
  venue = [];
  book_seq = 1;
  taker = true;
  account = 1;
  order_id = 7;
  price = pos 9900;
  qty = pos 3000000;
  buying = true;
  taker_order = 7;
  maker_order = 8;
}

abbrev after : Result (⊤ × Db) → Db
after (ok (a, d)) = d
after (err e) = db

abbrev db1 : Db
unfolding apply_fill_half
db1 = after (apply_fill_half config none 0 4 half db)

-- The order afterwards.
abbrev advanced : OrderRow
advanced = record order {
  status = partially_filled;
  filled_qty = pos 3000000;
  filled_notional = pos 29700;
}

applied :
    (apply_fill_half config none 0 4 half db ≡ ok (tt, db1))
    × (lookup 7 db1.orders ≡ some advanced)
    × (notional half.qty half.price ≡ some (pos 29700))
    × (fee_of config true (pos 29700) (pos 29700) ≡ some (pos 15))
unfolding apply_fill_half notional notional_rem mul_div to_u64 in_tx assert_lease fill_half_tx
    lock_account record_fill fee_of fee_bps wrap64 ◌+ℤ◌ ◌-ℤ◌ write_txn half_fill_legs settle_half
    of_u64 name_eq delta insert_txn txn_balanced unit_total update_balance advance_order_fill
    advance_status release_if_terminal apply_position_delta update_position apply_buy owed
    settle_reservation settle_row update_row notional_ceil round_away
applied = (refl, refl, refl, refl)

-- Delivered again at the next offset, it moves the offset.
apply_fill_half_once_example :
    apply_fill_half config none 0 5 half db1
    ≡ ok (tt, record db1 { offsets = insert 0 6 db1.offsets })
apply_fill_half_once_example =
    apply_fill_half_once config none 0 4 5 half db db1 (pos 29700) (pos 15) advanced applied.0
      applied.2 applied.1 applied.3

apply_fill_half-Summed_example : Summed db1
unfolding ledger_total
apply_fill_half-Summed_example =
    apply_fill_half-Summed config none 0 4 half db db1 applied.0 (λ a. (refl, refl))

sequenced : Sequenced db.next_seq db.txns
sequenced a n h = (ground arith, tt)

projects : ProjectsPositions db
unfolding projected_positions replay_account replay_account_range txns_between join_rows replay_rows
    flush
projects a x = refl

apply_fill_half-replay_account_example : Sequenced db1.next_seq db1.txns × ProjectsPositions db1
apply_fill_half-replay_account_example =
    apply_fill_half-replay_account config none 0 4 half db db1 refl (omega arith, omega arith)
      applied.0 sequenced projects
