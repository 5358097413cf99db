-- ===== src/Engine/Ledger/Sums.antt =====
-- The balance projection of writeTxn in internal/engine/engine.go against the postings: the row of an
-- account is the sum of its cash postings and the sum of its fee postings.
use trade_execution_operatin.Common.{
  ℕ, ◌≡◌, refl, sym, ◌∙◌, ap, Bool, true, false, ◌&&◌, Option, none, some, List, [], ◌∷◌, ◌==◌,
  ==_iff, if◌then◌else◌, arith, Bool-cases, inl, inr,
}
use trade_execution_operatin.Common.Int.{ℤ, pos, ◌+ℤ◌, eqb_ℤ, int_laws}
use trade_execution_operatin.Common.Dict.{lookup, insert, lookup-insert}
use trade_execution_operatin.Book.{Uuid}
use trade_execution_operatin.Engine.Db.{LedgerKind, Leg, Txn, BalanceRow, Db}
use trade_execution_operatin.Engine.Db.Hoare.{
  Leads, Keeps, Leads-pure, Leads-gets, Leads-modify, Leads-bigint, Leads-bind,
}
use trade_execution_operatin.Engine.Ledger.{
  has_event, postings, leg_of, delta, balance_row, upsert_balance, update_balance, Written, bump,
  bump_seq, insert_txn, write_txn,
}
use trade_execution_operatin.Engine.Ledger.Frame.{insert_rows-Leads}

-- The exact sums over the legs of one kind.
unfoldable pub leg_total : LedgerKind → List Leg → ℤ
leg_total k [] = pos 0
leg_total k (l ∷ ls) = leg_of k l +ℤ leg_total k ls

unfoldable pub ledger_total : LedgerKind → Uuid → List Txn → ℤ
unfolding leg_total
ledger_total k a [] = pos 0
ledger_total k a (t ∷ ts) =
    let rest = ledger_total k a ts in if a == t.account then rest +ℤ leg_total k t.legs else rest

abbrev pub row_of : Uuid → Db → BalanceRow
row_of a db = balance_row (lookup a db.balances)

-- Each account's row is what its postings sum to.
abbrev pub Summed : Db → Type 0
Summed db =
    (a : Uuid)
    → ((row_of a db).cash ≡ ledger_total LedgerKind.cash a db.txns)
      × ((row_of a db).fees ≡ ledger_total LedgerKind.fees a db.txns)

-- The same, but for an amount that the row of one account lacks.
abbrev Lacks : Uuid → ℤ → ℤ → Db → Type 0
Lacks account cash fees db =
    (a : Uuid)
    → ((row_of a db).cash +ℤ (if a == account then cash else pos 0)
        ≡ ledger_total LedgerKind.cash a db.txns)
      × ((row_of a db).fees +ℤ (if a == account then fees else pos 0)
          ≡ ledger_total LedgerKind.fees a db.txns)

leg_of_zero : (k : LedgerKind) (l : Leg) → l.amount ≡ pos 0 → leg_of k l ≡ pos 0
leg_of_zero k l h = ground arith

+ℤ_zero : (z : ℤ) → z +ℤ pos 0 ≡ z
+ℤ_zero z = omega int_laws

skipped : (k : LedgerKind) (l : Leg) (z : ℤ) → eqb_ℤ l.amount (pos 0) ≡ true → z ≡ leg_of k l +ℤ z
skipped k l z h =
    let e : z ≡ pos 0 +ℤ z = omega int_laws in
    e ∙ sym (ap (λ y. y +ℤ z) (leg_of_zero k l (ground arith)))

leg_total-postings : (k : LedgerKind) (ls : List Leg) → leg_total k (postings ls) ≡ leg_total k ls
unfolding leg_total
leg_total-postings k [] = refl
leg_total-postings k (l ∷ ls) = elim (Bool-cases (eqb_ℤ l.amount (pos 0))) [
  | inl none_moved ↦
      rw (none_moved, leg_total-postings k ls) (skipped k l (leg_total k ls) none_moved)
  | inr moved ↦ rw moved (ap (λ z. leg_of k l +ℤ z) (leg_total-postings k ls))
]

lacking :
    (here : Bool) (x d r : ℤ)
    → x ≡ r
    → x +ℤ (if here then d else pos 0) ≡ (if here then r +ℤ d else r)
lacking true x d r h = rw h refl
lacking false x d r h = +ℤ_zero x ∙ h

adds_lacking :
    (t : Txn) (db : Db)
    → Summed db
    → Lacks t.account
        (leg_total LedgerKind.cash t.legs)
        (leg_total LedgerKind.fees t.legs)
        (record db { txns = record t { legs = postings t.legs } ∷ db.txns })
unfolding ledger_total
adds_lacking t db h a =
    rw (leg_total-postings LedgerKind.cash t.legs, leg_total-postings LedgerKind.fees t.legs)
      (lacking (a == t.account) _ _ _ (h a).0, lacking (a == t.account) _ _ _ (h a).1)

-- Writing the row of the account makes good what it lacks.
paid :
    (account : Uuid) (cash fees c f : ℤ) (db : Db)
    → Lacks account cash fees db
    → c ≡ (row_of account db).cash +ℤ cash
    → f ≡ (row_of account db).fees +ℤ fees
    → Summed (record db { balances = insert account (record { cash = c; fees = f }) db.balances })
paid account cash fees c f db h ec ef a =
    rw (lookup-insert a account (record { cash = c; fees = f }) db.balances)
      (elim (Bool-cases (a == account)) [
        | inl here ↦
            let same : a ≡ account = (==_iff a account).0 here in
            let at = rw here at (h a) in
            let rows = ap (λ x. row_of x db) same in
            rw here (
              ec ∙ sym (ap (λ (x : BalanceRow). x.cash +ℤ cash) rows) ∙ at.0,
              ef ∙ sym (ap (λ (x : BalanceRow). x.fees +ℤ fees) rows) ∙ at.1,
            )
        | inr elsewhere ↦
            let at = rw elsewhere at (h a) in
            rw elsewhere (sym (+ℤ_zero _) ∙ at.0, sym (+ℤ_zero _) ∙ at.1)
      ])

module _ (account : Uuid) (cash fees : ℤ) where
  upsert_balance-Summed :
      Leads (Lacks account cash fees) (upsert_balance account cash fees) (λ _. Summed)
  unfolding upsert_balance
  upsert_balance-Summed =
      Leads-bind
        {Q = λ (old : BalanceRow) db. Lacks account cash fees db × (old ≡ row_of account db)}
        (Leads-gets (λ db. balance_row (lookup account db.balances)) λ db p. (p, refl))
        λ (old : BalanceRow). Leads-bind (Leads-bigint (old.cash +ℤ cash)) λ c.
          Leads-bind (Leads-bigint (old.fees +ℤ fees)) λ f.
            Leads-modify
              (λ db. record db {
                balances = insert account (record { cash = c; fees = f }) db.balances;
              })
              λ db (((p, eo), ec), ef).
                paid account cash fees c f db p (ec ∙ ap (λ (x : BalanceRow). x.cash +ℤ cash) eo)
                  (ef ∙ ap (λ (x : BalanceRow). x.fees +ℤ fees) eo)

  nothing_lacking :
      (here : Bool) (x d r : ℤ) → d ≡ pos 0 → x +ℤ (if here then d else pos 0) ≡ r → x ≡ r
  nothing_lacking true x d r z h = sym (+ℤ_zero x) ∙ ap (λ y. x +ℤ y) (sym z) ∙ h
  nothing_lacking false x d r z h = sym (+ℤ_zero x) ∙ h

  update_balance-Summed :
      Leads (Lacks account cash fees) (update_balance account cash fees) (λ _. Summed)
  unfolding update_balance
  update_balance-Summed = elim (Bool-cases (eqb_ℤ cash (pos 0) && eqb_ℤ fees (pos 0))) [
    | inl none_moved ↦ rw none_moved (
        Leads-pure tt λ db h a. (
          nothing_lacking (a == account) _ cash _ (ground arith) (h a).0,
          nothing_lacking (a == account) _ fees _ (ground arith) (h a).1,
        ))
    | inr moved ↦ rw moved upsert_balance-Summed
  ]

bump-Summed : (account : Uuid) (n : Option ℕ) (db : Db) → Summed db → Summed (bump account n db)
bump-Summed account none db h = h
bump-Summed account (some n) db h = h

bump_seq-Summed : (account : Uuid) → Keeps Summed (bump_seq account)
bump_seq-Summed account = record {
  run = λ db h. bump-Summed account (lookup account db.next_seq) db h;
}

module _ (t : Txn)
    (cash_fits : delta LedgerKind.cash t.legs (pos 0) ≡ leg_total LedgerKind.cash t.legs)
    (fees_fits : delta LedgerKind.fees t.legs (pos 0) ≡ leg_total LedgerKind.fees t.legs) where
  insert_txn-Summed : Keeps Summed (insert_txn t)
  unfolding insert_txn
  insert_txn-Summed =
      Leads-bind
        (insert_rows-Leads {P = Summed}
          {Q = λ _.
            Lacks t.account (delta LedgerKind.cash t.legs (pos 0))
              (delta LedgerKind.fees t.legs (pos 0))}
          t λ db h. rw (cash_fits, fees_fits) (adds_lacking t db h))
        λ _.
          Leads-bind
            (update_balance-Summed t.account (delta LedgerKind.cash t.legs (pos 0))
              (delta LedgerKind.fees t.legs (pos 0)))
            λ _. Leads-bind (bump_seq-Summed t.account) λ _. Leads-pure Written.written λ db h. h

  -- writeTxn keeps the projection equal to the ledger, for a transaction whose sums fit in an int64.
  pub write_txn-Summed : Keeps Summed (write_txn t)
  unfolding write_txn
  write_txn-Summed = record {
    run = λ db h. elim (Bool-cases (has_event t.event_id db.txns)) [
      | inl e ↦ rw e h
      | inr e ↦ rw e (insert_txn-Summed.run db h)
    ];
  }
