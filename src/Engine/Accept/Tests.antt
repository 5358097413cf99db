-- ===== src/Engine/Accept/Tests.antt =====
-- An order that internal/engine/submit.go accepts.
use trade_execution_operatin.Common.{◌≡◌, refl, none, [], ◌∷◌, arith}
use trade_execution_operatin.Common.Int.{pos, ◌+ℤ◌, ◌-ℤ◌}
use trade_execution_operatin.Common.Int64.{to_u64, of_u64, wrap64}
use trade_execution_operatin.Money.{notional_ceil, notional_rem, mul_div, round_away, fee_bps, add}
use trade_execution_operatin.Book.{Side, OrderType, Tif}
use trade_execution_operatin.Engine.Db.{accepted, OrderRow, Db, Result, ok, err}
use trade_execution_operatin.Engine.Reservation.{Config, Request, size_reservation}
use trade_execution_operatin.Engine.Ledger.{lock_account, assert_lease, in_tx}
use trade_execution_operatin.Engine.Accept.{
  open_cash, balances, risk_check, load_by_client_id, new_order, decide, accept_new, accept,
}
use trade_execution_operatin.Engine.Accept.Solvent.{Solvent, accept-Solvent}

abbrev config : Config
config = record { collar_bps = pos 500; taker_fee_bps = pos 5; maker_fee_bps = pos 3 }

-- Ten shares at a limit of 100.00, in an account with 2000.00.
abbrev request : Request
request = record {
  account = 1;
  client_order_id = 99 ∷ [];
  tif = Tif.gtc;
  symbol = 65 ∷ [];
  side = Side.buy;
  order_type = OrderType.limit;
  qty = pos 10000000;
  limit_price = pos 10000;
}

abbrev db : Db
db = record {
  next_seq = (1, 1) ∷ [];
  txns = [];
  balances = (1, record { cash = pos 200000; fees = pos 0 }) ∷ [];
  positions = [];
  orders = [];
  reservations = [];
  fills = [];
  offsets = [];
  lease = none;
  outbox = [];
}

abbrev after : Result (OrderRow × Db) → Db
after (ok (v, d)) = d
after (err e) = db

abbrev db1 : Db
unfolding accept
db1 = after (accept config none 8 request (pos 0) db)

db-Solvent : Solvent db
unfolding open_cash
db-Solvent a = ground arith

accepted_order :
    accept config none 8 request (pos 0) db ≡ ok (new_order 8 request (pos 0) accepted none, db1)
unfolding accept in_tx assert_lease lock_account load_by_client_id accept_new size_reservation
    notional_ceil notional_rem mul_div to_u64 of_u64 round_away fee_bps add wrap64 ◌+ℤ◌ ◌-ℤ◌
    risk_check balances open_cash decide
accepted_order = refl

accept-Solvent_example : Solvent db1
accept-Solvent_example =
    accept-Solvent 8 request (pos 0) config none db db1 (new_order 8 request (pos 0) accepted none)
      accepted_order refl db-Solvent
