-- ===== src/Engine/Outcomes/Replayed.antt =====
-- applyFillHalf of internal/engine/outcomes.go keeps the positions what the replay of
-- internal/engine/replay.go gives.
use mathlib.Core.Path.{subst}
use trade_execution_operatin.Common.{
  ℕ, ◌+◌, ◌<◌, ◌≡◌, refl, sym, ◌∙◌, ap, true, ◌&&◌, Option, some, List, ◌∷◌, ◌==◌, ==_iff,
  if◌then◌else◌, arith, Bool-cases, inl, inr,
}
use trade_execution_operatin.Common.Int.{pos, ltb_ℤ}
use trade_execution_operatin.Common.Int64.{IsInt64, add64, sub64}
use trade_execution_operatin.Common.Dict.{lookup, insert}
use trade_execution_operatin.Common.Names.{name_eq, name_eq_sound}
use trade_execution_operatin.Money.{Minor, Qty}
use trade_execution_operatin.Money.{with_sign, xor, mul_div, qty_scale, strip_sign, notional_rem}
use trade_execution_operatin.Money
use trade_execution_operatin.Book.{Uuid, Name}
use trade_execution_operatin.Engine.Position.{PositionState, apply_buy, apply_sell}
use trade_execution_operatin.Engine.Db.{
  Txn, OrderRow, PositionRow, Db, no_such_order, fee_overflow, notional_overflow, ok,
}
use trade_execution_operatin.Engine.Db.Hoare.{
  Leads, Keeps, Leads-pure, Leads-gets, Leads-modify, Leads-or_fail, Leads-bind, Leads-ok,
}
use trade_execution_operatin.Engine.Reservation.{Config}
use trade_execution_operatin.Engine.Reservation.Frame.{settle_reservation-Keeps}
use trade_execution_operatin.Engine.Orders.Frame.{advance_order_fill-Keeps}
use trade_execution_operatin.Engine.Ledger.{Written, written, duplicate_event}
use trade_execution_operatin.Engine.Ledger.Frame.{in_tx-Leads}
use trade_execution_operatin.Engine.Outcomes.Exactly.{record_fill-Keeps}
use trade_execution_operatin.Engine.Replay.{
  ReplayState, position_of, replay_account, replay_account_range,
}
use trade_execution_operatin.Engine.Replay.Same.{position_of-put}
use trade_execution_operatin.Engine.Replay.Appended.{
  Below, replayed, replayed_appended, replayed_elsewhere,
}
use trade_execution_operatin.Engine.Replay.Half.{half-positions}
use trade_execution_operatin.Engine.Replay.Applied.{half-apply, shares_fit, shares_moved}
use trade_execution_operatin.Engine.Replay.Projected.{
  projected_positions, projected-update_position,
}
use trade_execution_operatin.Engine.Outcomes.{
  FillHalf, fee_of, update_position, apply_position_delta, fill_txn, settle_half, fill_half_tx,
  apply_fill_half,
}
use trade_execution_operatin.Engine.Outcomes.Derived.{
  Sequenced, Replays, Derived, posted, Unmoved, After, write_txn-After, lock_account-Derived,
}
use trade_execution_operatin.Money.Range.{notional-IsInt64}

-- Each position row is the position that ReplayAccount rebuilds.
abbrev pub ProjectsPositions : Db → Type 0
ProjectsPositions db =
    (a : Uuid) (x : Name)
    → position_of x (projected_positions a db.positions)
      ≡ position_of x (replay_account db a).positions

-- What applyPositionDelta does to a position.
abbrev moves : FillHalf → Minor → Minor → PositionState → PositionState
moves msg notional fee p =
    if msg.buying
    then apply_buy p msg.qty (add64 notional fee)
    else apply_sell p msg.qty (sub64 notional fee)

at_symbol :
    (x symbol : Name) (f : PositionState → PositionState) (g : Name → PositionState)
    → (if name_eq x symbol then f (g x) else g x) ≡ (if name_eq x symbol then f (g symbol) else g x)
at_symbol x symbol f g = elim (Bool-cases (name_eq x symbol)) [
  | inl e ↦ rw e (ap (λ n. f (g n)) (name_eq_sound x symbol e))
  | inr e ↦ rw e refl
]

module _ (msg : FillHalf) (notional fee : Minor) (seq : ℕ) (positive : ltb_ℤ (pos 0) msg.qty ≡ true)
    (qty_fits : IsInt64 msg.qty) (notional_fits : IsInt64 notional) where
  abbrev this : Txn
  this = fill_txn msg seq notional fee

  replayed_half :
      (ts : List Txn) (x : Name)
      → 0 < seq
      → Below msg.account seq ts
      → position_of x (replayed msg.account (posted this ∷ ts)).positions ≡ (
          if name_eq x msg.symbol
          then moves msg notional fee (position_of msg.symbol (replayed msg.account ts).positions)
          else position_of x (replayed msg.account ts).positions)
  replayed_half ts x first below =
      let m = (replayed msg.account ts).positions in
      ap (λ (s : ReplayState). position_of x s.positions)
        (replayed_appended (posted this) ts first below)
      ∙ ap (position_of x) (
          half-positions seq msg.symbol msg.qty notional fee msg.buying (replayed msg.account ts)
            (shares_fit msg.qty notional fee msg.buying positive qty_fits notional_fits)
            (shares_moved msg.qty notional fee msg.buying positive qty_fits notional_fits))
      ∙ position_of-put x msg.symbol _ m
      ∙ ap (λ p. if name_eq x msg.symbol then p else position_of x m)
          (half-apply msg.qty notional fee msg.buying positive qty_fits notional_fits
            (position_of msg.symbol m))

  own_row :
      (ps : List PositionRow) (ts : List Txn)
      → 0 < seq
      → Below msg.account seq ts
      → Replays ps ts
      → (x : Name)
      → (if (msg.account == msg.account) && name_eq x msg.symbol
          then moves msg notional fee (position_of x (projected_positions msg.account ps))
          else position_of x (projected_positions msg.account ps))
        ≡ position_of x (replayed msg.account (posted this ∷ ts)).positions
  own_row ps ts first below r x =
      let self : (msg.account == msg.account) ≡ true = ground arith in
      rw self (
        ap (λ p. if name_eq x msg.symbol then moves msg notional fee p else p) (r msg.account x)
        ∙ at_symbol x msg.symbol (moves msg notional fee)
            (λ n. position_of n (replayed msg.account ts).positions)
        ∙ sym (replayed_half ts x first below))

  moved_row :
      (ps : List PositionRow) (ts : List Txn)
      → 0 < seq
      → Below msg.account seq ts
      → Replays ps ts
      → Replays
          (update_position msg.account msg.symbol (moves msg notional fee) ps)
          (posted this ∷ ts)
  moved_row ps ts first below r a x =
      projected-update_position msg.account msg.symbol (moves msg notional fee) a x ps
      ∙ elim (Bool-cases (msg.account == a)) [
        | inl here ↦
            subst
              (λ b.
                (if (msg.account == b) && name_eq x msg.symbol
                  then moves msg notional fee (position_of x (projected_positions b ps))
                  else position_of x (projected_positions b ps))
                ≡ position_of x (replayed b (posted this ∷ ts)).positions)
              ((==_iff msg.account a).0 here) (own_row ps ts first below r x)
        | inr elsewhere ↦ rw elsewhere (
            r a x
            ∙ ap (λ (s : ReplayState). position_of x s.positions)
                (sym (replayed_elsewhere (posted this) ts a (ground arith))))
      ]

  move_position :
      Leads
        (Unmoved this)
        (apply_position_delta msg.account msg.symbol msg.qty notional fee msg.buying)
        (λ _. Derived)
  unfolding apply_position_delta
  move_position = record {
    run = λ db (ts, (e, (s, ((first, below), r)))). (
      s,
      subst (Replays (update_position msg.account msg.symbol (moves msg notional fee) db.positions))
          (sym e) (moved_row db.positions ts first below r),
    );
  }

  settle_half-Derived :
      (o : OrderRow) (w : Written)
      → Leads (After this w) (settle_half msg o notional fee w) (λ _. Derived)
  unfolding settle_half
  settle_half-Derived o duplicate_event = Leads-pure tt λ db h. h
  settle_half-Derived o written = Leads-bind move_position λ _.
      Leads-bind
        (settle_reservation-Keeps (λ db rs h. h) msg.order_id msg.buying o.filled_qty msg.qty
          notional fee)
        λ _. advance_order_fill-Keeps (λ db rs h. h) msg.order_id (λ db o h. h) msg.qty notional

module _ (cfg : Config) (partition offset : ℕ) (msg : FillHalf) (notional : Minor)
    (positive : ltb_ℤ (pos 0) msg.qty ≡ true) (qty_fits : IsInt64 msg.qty)
    (notional_fits : IsInt64 notional) where
  abbrev Locked : ℕ → Db → Type 0
  Locked seq db = Derived db × (lookup msg.account db.next_seq ≡ some seq)

  fill_half_tx-Derived : Keeps Derived (fill_half_tx cfg partition offset msg notional)
  unfolding fill_half_tx
  fill_half_tx-Derived =
      Leads-bind
        (Leads-modify {P = Derived} {Q = λ _. Derived}
          (λ db. record db { offsets = insert partition (offset + 1) db.offsets }) λ db h. h)
        λ _. Leads-bind (lock_account-Derived msg.account) λ seq.
          Leads-bind (record_fill-Keeps {P = Locked seq} msg (λ db fs h. h)) λ _.
            Leads-bind
              (Leads-gets {P = Locked seq} {Q = λ _. Locked seq}
                (λ db. lookup msg.order_id db.orders) λ db h. h)
              λ found.
                Leads-bind
                  (Leads-or_fail {P = Locked seq} {Q = λ _. Locked seq} found no_such_order
                    λ db o e h. h)
                  λ (o : OrderRow).
                    Leads-bind
                      (Leads-or_fail {P = Locked seq} {Q = λ _. Locked seq}
                        (fee_of cfg msg.taker o.filled_notional notional) fee_overflow
                        λ db fee e h. h)
                      λ fee. Leads-bind (write_txn-After (fill_txn msg seq notional fee)) λ w.
                        settle_half-Derived msg notional fee seq positive qty_fits notional_fits o w

-- A fill half that is applied keeps the projection what a replay gives. Let the quantity be a positive
-- int64. If before it every account's next sequence number was positive and above those of its
-- transactions, and each position row was the position that ReplayAccount rebuilds from the ledger, for
-- every account and symbol, then both hold after it: quantity, cost basis and realized gain alike,
-- whether the half was new or a duplicate.
pub apply_fill_half-replay_account :
    (cfg : Config) (lease : Option ℕ) (partition offset : ℕ) (msg : FillHalf) (db db' : Db)
    → ltb_ℤ (pos 0) msg.qty ≡ true
    → IsInt64 msg.qty
    → apply_fill_half cfg lease partition offset msg db ≡ ok (tt, db')
    → Sequenced db.next_seq db.txns
    → ProjectsPositions db
    → Sequenced db'.next_seq db'.txns × ProjectsPositions db'
unfolding apply_fill_half replay_account replay_account_range
apply_fill_half-replay_account cfg lease partition offset msg db db' positive fits e s r =
    Leads-ok
      (Leads-bind {P = Derived} {Q = λ n db. Derived db × IsInt64 n}
        (Leads-or_fail (Money.notional msg.qty msg.price) notional_overflow
          λ db n e h. (h, notional-IsInt64 msg.qty msg.price n e))
        λ n. record {
          run = λ db (h, n_fits).
              (in_tx-Leads lease
                  (fill_half_tx-Derived cfg partition offset msg n positive fits n_fits)).run
                db h;
        })
      db db' tt e (s, r)
