-- ===== src/Engine/Outcomes.antt =====
-- The outcome consumer of internal/engine/outcomes.go: each record in one transaction, with the
-- consumer's offset.
pub mod Exactly
pub mod Derived
pub mod Projection
pub mod Replayed
mod Tests
use trade_execution_operatin.Common.{
  ℕ, suc, ◌+◌, Bool, true, false, Option, none, some, List, [], ◌∷◌, ◌==◌, ◌&&◌, ◌||◌,
  if◌then◌else◌,
}
use trade_execution_operatin.Common.Int.{ℤ, pos}
use trade_execution_operatin.Common.Int64.{add64, sub64}
use trade_execution_operatin.Common.Dict.{Dict, lookup, insert}
use trade_execution_operatin.Common.Names.{name_eq}
use trade_execution_operatin.Money.{Minor, Qty, fee_bps}
use trade_execution_operatin.Money
use trade_execution_operatin.Book.{Uuid, Name, Disposition}
use trade_execution_operatin.Engine.Position.{PositionState, apply_buy, apply_sell}
use trade_execution_operatin.Engine.Db.{
  TxnKind, Txn, OrderRow, FillRow, PositionRow, Db, Error, no_such_order, notional_overflow,
  fee_overflow, fill_conflict, Tx, ⊤, pure, fail, or_fail, gets, modify, ok, err, bind_result,
  ◌>>=◌, ◌>>◌,
}
use trade_execution_operatin.Engine.Reservation.{Config, settle_reservation}
use trade_execution_operatin.Engine.Ledger.{
  lock_account, Written, written, duplicate_event, write_txn, in_tx, half_fill_legs,
}
use trade_execution_operatin.Engine.Orders.{
  advance_order_fill, update_order, dispose_order, cancel_order_row, release_if_terminal,
}

-- events.FillHalf
pub record FillHalf : Type 0 where
  pub event_id : Uuid
  pub fill_id : Uuid
  pub shard_id : ℕ
  pub symbol : Name
  pub venue : Name
  pub book_seq : ℕ
  pub taker : Bool
  pub account : Uuid
  pub order_id : Uuid
  pub price : ℤ
  pub qty : ℤ
  pub buying : Bool
  pub taker_order : Uuid
  pub maker_order : Uuid

-- commitOffset, for the one topic and group of this consumer.
abbrev pub commit_offset : ℕ → ℕ → Tx ⊤
commit_offset partition next =
    modify (λ db. record db { offsets = insert partition next db.offsets })

-- venueOrDefault: book.DefaultVenue is "PRIMARY".
abbrev pub venue_or_default : Name → Name
venue_or_default [] = 80 ∷ 82 ∷ 73 ∷ 77 ∷ 65 ∷ 82 ∷ 89 ∷ []
venue_or_default (c ∷ v) = c ∷ v

abbrev pub fill_row : FillHalf → FillRow
fill_row msg = record {
  shard_id = msg.shard_id;
  symbol = msg.symbol;
  venue = venue_or_default msg.venue;
  book_seq = msg.book_seq;
  price = msg.price;
  qty = msg.qty;
  taker_order = msg.taker_order;
  maker_order = msg.maker_order;
}

-- UNIQUE (shard_id, venue, symbol, book_seq)
abbrev pub same_place : FillRow → FillRow → Bool
same_place a b =
    (a.shard_id == b.shard_id)
    && (name_eq a.venue b.venue && (name_eq a.symbol b.symbol && (a.book_seq == b.book_seq)))

abbrev pub place_taken : FillRow → Dict FillRow → Bool
place_taken row [] = false
place_taken row (e ∷ rows) = same_place row e.1 || place_taken row rows

abbrev pub insert_fill : Uuid → FillRow → Tx ⊤
insert_fill id row db =
    if place_taken row db.fills
    then err fill_conflict
    else ok (tt, record db { fills = insert id row db.fills })

-- INSERT INTO fills … ON CONFLICT (fill_id) DO NOTHING
unfoldable pub record_fill : FillHalf → Tx ⊤
record_fill msg db = elim (lookup msg.fill_id db.fills) [
  | some old ↦ ok (tt, db)
  | none ↦ insert_fill msg.fill_id (fill_row msg) db
]

-- The row of positions for an account and a symbol, created empty, and replaced by `f` of it.
unfoldable pub update_position :
    Uuid → Name → (PositionState → PositionState) → List PositionRow → List PositionRow
update_position account symbol f [] =
    record {
      account = account;
      symbol = symbol;
      state = f (record { qty = pos 0; basis = pos 0; realized = pos 0 });
    }
    ∷ []
update_position account symbol f (p ∷ ps) =
    let rest = update_position account symbol f ps in
    if (p.account == account) && name_eq p.symbol symbol
    then record p { state = f p.state } ∷ ps
    else p ∷ rest

-- applyPositionDelta
unfoldable pub apply_position_delta : Uuid → Name → Qty → Minor → Minor → Bool → Tx ⊤
unfolding update_position
apply_position_delta account symbol qty notional fee buying =
    let f = λ (p : PositionState).
      if buying
      then apply_buy p qty (add64 notional fee)
      else apply_sell p qty (sub64 notional fee) in
    modify (λ db. record db { positions = update_position account symbol f db.positions })

-- The fee of one half: what the cumulative notional owes after it, less what it owed before.
unfoldable pub fee_of : Config → Bool → Minor → Minor → Option Minor
fee_of cfg taker prior notional =
    let bps = if taker then cfg.taker_fee_bps else cfg.maker_fee_bps in
    elim (fee_bps prior bps) [
      | none ↦ none
      | some before ↦ elim (fee_bps (add64 prior notional) bps) [
        | none ↦ none
        | some after ↦ some (sub64 after before)
      ]
    ]

-- The statements that follow a transaction that was written.
unfoldable pub settle_half : FillHalf → OrderRow → Minor → Minor → Written → Tx ⊤
settle_half msg o notional fee duplicate_event = pure tt
settle_half msg o notional fee written = do
  apply_position_delta msg.account msg.symbol msg.qty notional fee msg.buying
  settle_reservation msg.order_id msg.buying o.filled_qty msg.qty notional fee
  advance_order_fill msg.order_id msg.qty notional

-- The transaction record that applyFillHalf gives to writeTxn.
abbrev pub fill_txn : FillHalf → ℕ → Minor → Minor → Txn
fill_txn msg seq notional fee = record {
  account = msg.account;
  seq = seq;
  kind = TxnKind.fill_half;
  event_id = msg.event_id;
  order_id = some msg.order_id;
  fill_id = some msg.fill_id;
  legs = half_fill_legs msg.symbol msg.qty notional fee msg.buying;
}

-- The transaction of applyFillHalf.
unfoldable pub fill_half_tx : Config → ℕ → ℕ → FillHalf → Minor → Tx ⊤
fill_half_tx cfg partition offset msg notional = do
  commit_offset partition (offset + 1)
  seq ← lock_account msg.account
  record_fill msg
  o ← or_fail (← gets (λ db. lookup msg.order_id db.orders)) no_such_order
  fee ← or_fail (fee_of cfg msg.taker o.filled_notional notional) fee_overflow
  w ← write_txn (fill_txn msg seq notional fee)
  settle_half msg o notional fee w

-- applyFillHalf
unfoldable pub apply_fill_half : Config → Option ℕ → ℕ → ℕ → FillHalf → Tx ⊤
apply_fill_half cfg lease partition offset msg = do
  notional ← or_fail (Money.notional msg.qty msg.price) notional_overflow
  in_tx lease (fill_half_tx cfg partition offset msg notional)

-- events.Disposition and applyDisposition
unfoldable pub apply_disposition : Option ℕ → ℕ → ℕ → Uuid → Uuid → Disposition → Option Name → Tx ⊤
apply_disposition lease partition offset account order d reason = in_tx lease (do
  commit_offset partition (offset + 1)
  lock_account account
  update_order order (dispose_order d reason)
  release_if_terminal order)

-- events.CancelOutcome and applyCancelOutcome
unfoldable pub apply_cancel_outcome : Option ℕ → ℕ → ℕ → Uuid → Uuid → Bool → Name → Tx ⊤
apply_cancel_outcome lease partition offset account order removed reason = in_tx lease (do
  commit_offset partition (offset + 1)
  lock_account account
  update_order order (cancel_order_row removed reason)
  release_if_terminal order)
