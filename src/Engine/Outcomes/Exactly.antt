-- ===== src/Engine/Outcomes/Exactly.antt =====
-- What a record of internal/engine/outcomes.go does when the log delivers it again.
use trade_execution_operatin.Common.{
  ℕ, suc, ◌+◌, List, sym, ◌∙◌, Option-cases, Bool-cases, inl, inr, ◌≡◌, refl, Bool, true, Option,
  none, some,
}
use trade_execution_operatin.Common.Dict.{Dict, lookup, insert, Has, Has-insert, Has-inserted}
use trade_execution_operatin.Money.{Minor, Qty}
use trade_execution_operatin.Money
use trade_execution_operatin.Book.{Uuid, Name}
use trade_execution_operatin.Engine.Db.{
  LeaseRow, PositionRow, no_such_account, no_such_order, fee_overflow, or_fail, OrderRow, FillRow,
  Db, ok,
}
use trade_execution_operatin.Engine.Db.Hoare.{
  Leads, Keeps, Leads-pure, Leads-gets, Leads-modify, Leads-or_fail, Leads-bind, Leads-ok,
}
use trade_execution_operatin.Engine.Reservation.{Config}
use trade_execution_operatin.Engine.Reservation.Frame.{settle_reservation-Keeps}
use trade_execution_operatin.Engine.Orders.Frame.{advance_order_fill-Keeps}
use trade_execution_operatin.Engine.Ledger.Frame.{
  Recorded, IsStable, write_txn-Leads, in_tx-Leads, inserted_since-same, in_tx-asserted,
  assert_lease-same,
}
use trade_execution_operatin.Engine.Ledger.{
  lock_account, has_event, bump, Written, written, duplicate_event, write_txn, assert_lease, in_tx,
}
use trade_execution_operatin.Engine.Outcomes.{
  FillHalf, fill_row, place_taken, record_fill, apply_position_delta, fee_of, settle_half, fill_txn,
  fill_half_tx, apply_fill_half,
}

pub apply_position_delta-Keeps :
    {P : Db → Type 0}
    → ((db : Db) (ps : List PositionRow) → P db → P (record db { positions = ps }))
    → (account : Uuid) (symbol : Name) (qty : Qty) (notional fee : Minor) (buying : Bool)
    → Keeps P (apply_position_delta account symbol qty notional fee buying)
unfolding apply_position_delta
apply_position_delta-Keeps moves account symbol qty notional fee buying = record {
  run = λ db p. moves db _ p;
}

lock_account-Leads :
    (lease : Option LeaseRow) (account : Uuid)
    → Leads
        (λ db. db.lease ≡ lease)
        (lock_account account)
        (λ seq db. Has account db.next_seq × (db.lease ≡ lease))
unfolding lock_account
lock_account-Leads lease account =
    Leads-bind
      (Leads-gets {Q = λ found db. (found ≡ lookup account db.next_seq) × (db.lease ≡ lease)}
        (λ db. lookup account db.next_seq) λ db l. (refl, l))
      λ found. Leads-or_fail found no_such_account λ db seq e (g, l). ((seq, sym g ∙ e), l)

pub record_fill-Keeps :
    {P : Db → Type 0} (msg : FillHalf)
    → ((db : Db) (fs : Dict FillRow) → P db → P (record db { fills = fs }))
    → Keeps P (record_fill msg)
unfolding record_fill
record_fill-Keeps msg keeps = record {
  run = λ db h. elim (Option-cases (lookup msg.fill_id db.fills)) [
    | inr (old, e) ↦ rw (record_fill, e) h
    | inl e ↦ elim (Bool-cases (place_taken (fill_row msg) db.fills)) [
      | inl taken ↦ rw (record_fill, e, taken) tt
      | inr free ↦
          rw (record_fill, e, free) (keeps db (insert msg.fill_id (fill_row msg) db.fills) h)
    ]
  ];
}

record_fill-Leads :
    (lease : Option LeaseRow) (msg : FillHalf)
    → Leads
        (λ db. Has msg.account db.next_seq × (db.lease ≡ lease))
        (record_fill msg)
        (λ _ db. Has msg.account db.next_seq × Has msg.fill_id db.fills × (db.lease ≡ lease))
unfolding record_fill
record_fill-Leads lease msg = record {
  run = λ db (a, l). elim (Option-cases (lookup msg.fill_id db.fills)) [
    | inr (old, e) ↦ rw (record_fill, e) (a, (old, e), l)
    | inl e ↦ elim (Bool-cases (place_taken (fill_row msg) db.fills)) [
      | inl taken ↦ rw (record_fill, e, taken) tt
      | inr free ↦
          rw (record_fill, e, free) (a, Has-inserted msg.fill_id (fill_row msg) db.fills, l)
    ]
  ];
}

module _ (lease : Option LeaseRow) (msg : FillHalf) where
  -- What applying a fill half leaves in the database, besides its event.
  abbrev Held : Db → Type 0
  Held db =
      Has msg.account db.next_seq
      × Has msg.fill_id db.fills
      × Has msg.order_id db.orders
      × (db.lease ≡ lease)

  bump-Held : (a : Uuid) (n : Option ℕ) (db : Db) → Held db → Held (bump a n db)
  bump-Held a none db h = h
  bump-Held a (some n) db (account, fill, order, same) =
      (Has-insert msg.account a (suc n) db.next_seq account, fill, order, same)

  Held-IsStable : (a : Uuid) → IsStable Held a
  Held-IsStable a = record {
    pays = λ db bs h. h;
    adds = λ db ts h. h;
    bumps = λ db h. bump-Held a (lookup a db.next_seq) db h;
  }

  abbrev Applied : Db → Type 0
  Applied = Recorded Held msg.event_id

  moves_order :
      (db : Db) (o : OrderRow)
      → Applied db
      → Applied (record db { orders = insert msg.order_id o db.orders })
  moves_order db o ((account, fill, order, same), e) =
      ((account, fill, Has-insert msg.order_id msg.order_id o db.orders order, same), e)

  settle_half-Keeps :
      (o : OrderRow) (notional fee : Minor) (w : Written)
      → Keeps Applied (settle_half msg o notional fee w)
  unfolding settle_half
  settle_half-Keeps o notional fee duplicate_event = Leads-pure tt λ db p. p
  settle_half-Keeps o notional fee written =
      Leads-bind
        (apply_position_delta-Keeps (λ db ps p. p) msg.account msg.symbol msg.qty notional fee
          msg.buying)
        λ _.
          Leads-bind
            (settle_reservation-Keeps (λ db rs p. p) msg.order_id msg.buying o.filled_qty msg.qty
              notional fee)
            λ _. advance_order_fill-Keeps (λ db rs p. p) msg.order_id moves_order msg.qty notional

  fill_half_tx-Leads :
      (cfg : Config) (partition offset : ℕ) (notional : Minor)
      → Leads
          (λ db. db.lease ≡ lease)
          (fill_half_tx cfg partition offset msg notional)
          (λ _. Applied)
  unfolding fill_half_tx
  fill_half_tx-Leads cfg partition offset notional =
      Leads-bind
        (Leads-modify {P = λ db. db.lease ≡ lease} {Q = λ _ db. db.lease ≡ lease}
          (λ db. record db { offsets = insert partition (offset + 1) db.offsets }) λ db p. p)
        λ _. Leads-bind (lock_account-Leads lease msg.account) λ seq.
          Leads-bind (record_fill-Leads lease msg) λ _.
            Leads-bind
              (Leads-gets
                {Q = λ found db.
                  Has msg.account db.next_seq
                  × Has msg.fill_id db.fills
                  × (found ≡ lookup msg.order_id db.orders)
                  × (db.lease ≡ lease)}
                (λ db. lookup msg.order_id db.orders) λ db (a, f, l). (a, f, refl, l))
              λ found.
                Leads-bind
                  (Leads-or_fail {Q = λ o. Held} found no_such_order
                    λ db o e (a, f, g, l). (a, f, (o, sym g ∙ e), l))
                  λ o.
                    Leads-bind
                      (Leads-or_fail {Q = λ fee. Held}
                        (fee_of cfg msg.taker o.filled_notional notional) fee_overflow
                        λ db fee e p. p)
                      λ fee.
                        Leads-bind
                          (write_txn-Leads (fill_txn msg seq notional fee)
                            (Held-IsStable msg.account))
                          λ w. settle_half-Keeps o notional fee w

-- A fill half whose event is recorded already moves the offset and nothing else: no posting, no
-- balance, position, reservation or order changes.
pub apply_fill_half_redelivered :
    (cfg : Config) (lease : Option ℕ) (partition offset : ℕ) (msg : FillHalf) (db : Db)
    (notional fee : Minor) (seq : ℕ) (row : FillRow) (o : OrderRow)
    → Money.notional msg.qty msg.price ≡ some notional
    → assert_lease lease db ≡ ok (tt, db)
    → lookup msg.account db.next_seq ≡ some seq
    → lookup msg.fill_id db.fills ≡ some row
    → lookup msg.order_id db.orders ≡ some o
    → fee_of cfg msg.taker o.filled_notional notional ≡ some fee
    → has_event msg.event_id db.txns ≡ true
    → apply_fill_half cfg lease partition offset msg db
      ≡ ok (tt, record db { offsets = insert partition (offset + 1) db.offsets })
unfolding apply_fill_half in_tx fill_half_tx lock_account record_fill write_txn settle_half
apply_fill_half_redelivered cfg lease partition offset msg db notional fee seq row o en el es ef eo
      ee eh =
    rw (en, el, es, record_fill, ef, eo, ee, eh, inserted_since-same db.txns) refl

-- Exactly once: after a fill half was applied in a database, its redelivery in the database that this
-- left, under the same lease and at any offset, succeeds, moves the offset and changes nothing else,
-- provided that its fee on the order as it is then can be computed.
pub apply_fill_half_once :
    (cfg : Config) (lease : Option ℕ) (partition offset offset' : ℕ) (msg : FillHalf) (db db' : Db)
    (notional fee : Minor) (o : OrderRow)
    → apply_fill_half cfg lease partition offset msg db ≡ ok (tt, db')
    → Money.notional msg.qty msg.price ≡ some notional
    → lookup msg.order_id db'.orders ≡ some o
    → fee_of cfg msg.taker o.filled_notional notional ≡ some fee
    → apply_fill_half cfg lease partition offset' msg db'
      ≡ ok (tt, record db' { offsets = insert partition (offset' + 1) db'.offsets })
unfolding apply_fill_half
apply_fill_half_once cfg lease partition offset offset' msg db db' notional fee o done en eo ee =
    let done' : in_tx lease (fill_half_tx cfg partition offset msg notional) db ≡ ok (tt, db') =
      rw (en, or_fail) at done in
    let (((seq, es), (row, ef), order, same), eh) =
      Leads-ok (in_tx-Leads lease (fill_half_tx-Leads db.lease msg cfg partition offset notional))
        db db' tt done' refl in
    apply_fill_half_redelivered cfg lease partition offset' msg db' notional fee seq row o en
      (assert_lease-same lease db db' (in_tx-asserted lease _ db db' tt done') same) es ef eo ee eh
