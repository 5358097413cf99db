-- ===== src/Engine/Ledger/Frame.antt =====
-- What writeTxn and inTx of internal/engine/engine.go establish, and what they leave alone.
use trade_execution_operatin.Common.{
  ℕ, ◌≡◌, refl, true, ◌&&◌, Option, none, some, List, [], ◌-◌, length, ◌∷◌, arith, ◌==◌, Bool-cases,
  inl, inr, ◌⊎◌, Option-cases,
}
use trade_execution_operatin.Common.Int.{ℤ, ◌+ℤ◌, eqb_ℤ, pos}
use trade_execution_operatin.Common.Dict.{Dict, lookup, insert}
use trade_execution_operatin.Book.{Uuid}
use trade_execution_operatin.Engine.Db.{
  Txn, LedgerKind, BalanceRow, Db, Error, no_such_account, lease_lost, bind_result, Result, ok, err,
  Tx, ⊤,
}
use trade_execution_operatin.Engine.Db.Hoare.{
  Ok, Leads, Keeps, Leads-pure, Leads-gets, Leads-or_fail, Leads-modify, Leads-if, Keeps-bigint,
  Leads-bind,
}
use trade_execution_operatin.Engine.Ledger.{
  lock_account, has_event, postings, delta, upsert_balance, update_balance, Written, bump, bump_seq,
  insert_txn, insert_rows, seq_taken, write_txn, all_balanced, inserted_since, assert_lease, commit,
  in_tx,
}

module _ {P : Db → Type 0}
    (pays : (db : Db) (bs : Dict BalanceRow) → P db → P (record db { balances = bs })) where
  upsert_balance-Keeps :
      (account : Uuid) (d_cash d_fees : ℤ) → Keeps P (upsert_balance account d_cash d_fees)
  unfolding upsert_balance
  upsert_balance-Keeps account d_cash d_fees =
      Leads-bind (Leads-gets _ λ db p. p) λ (old : BalanceRow).
        Leads-bind (Keeps-bigint (old.cash +ℤ d_cash)) λ cash.
          Leads-bind (Keeps-bigint (old.fees +ℤ d_fees)) λ fees.
            Leads-modify
              (λ db. record db {
                balances = insert account (record { cash = cash; fees = fees }) db.balances;
              })
              λ db p. pays db (insert account (record { cash = cash; fees = fees }) db.balances) p

  pub update_balance-Keeps :
      (account : Uuid) (d_cash d_fees : ℤ) → Keeps P (update_balance account d_cash d_fees)
  unfolding update_balance
  update_balance-Keeps account d_cash d_fees =
      Leads-if (eqb_ℤ d_cash (pos 0) && eqb_ℤ d_fees (pos 0)) (Leads-pure tt λ db p. p)
        (upsert_balance-Keeps account d_cash d_fees)

pub insert_rows-Leads :
    {P : Db → Type 0} {Q : ⊤ → Db → Type 0} (t : Txn)
    → ((db : Db) → P db → Q tt (record db { txns = record t { legs = postings t.legs } ∷ db.txns }))
    → Leads P (insert_rows t) Q
unfolding insert_rows
insert_rows-Leads t h = record {
  run = λ db p. elim (Bool-cases (seq_taken t.account t.seq db.txns)) [
    | inl taken ↦ rw (insert_rows, taken) tt
    | inr free ↦ rw (insert_rows, free) (h db p)
  ];
}

abbrev pub Recorded : (Db → Type 0) → Uuid → Db → Type 0
Recorded P event db = P db × (has_event event db.txns ≡ true)

-- What is stable under every statement of writeTxn.
pub record IsStable (P : Db → Type 0) (account : Uuid) : Type 0 where
  pub pays : (db : Db) (bs : Dict BalanceRow) → P db → P (record db { balances = bs })
  pub adds : (db : Db) (ts : List Txn) → P db → P (record db { txns = ts })
  pub bumps : (db : Db) → P db → P (bump account (lookup account db.next_seq) db)

bump-txns : (account : Uuid) (n : Option ℕ) (db : Db) → (bump account n db).txns ≡ db.txns
bump-txns account none db = refl
bump-txns account (some n) db = refl

module _ {P : Db → Type 0} (t : Txn) (stable : IsStable P t.account) where
  bump_seq-Keeps : Keeps (Recorded P t.event_id) (bump_seq t.account)
  bump_seq-Keeps = record {
    run = λ db p.
        (stable.bumps db p.0, rw (bump-txns t.account (lookup t.account db.next_seq) db) p.1);
  }

  insert_txn-Leads : Leads P (insert_txn t) (λ w. Recorded P t.event_id)
  unfolding insert_txn
  insert_txn-Leads =
      Leads-bind
        (insert_rows-Leads {P = P} {Q = λ _. Recorded P t.event_id} t
          λ db p. (stable.adds db (record t { legs = postings t.legs } ∷ db.txns) p, ground arith))
        λ _.
          Leads-bind
            (update_balance-Keeps (λ db bs p. (stable.pays db bs p.0, p.1)) t.account
              (delta LedgerKind.cash t.legs (pos 0)) (delta LedgerKind.fees t.legs (pos 0)))
            λ _. Leads-bind bump_seq-Keeps λ _. Leads-pure Written.written λ db p. p

  -- The event of a transaction is recorded once writeTxn is through, whichever way it went.
  pub write_txn-Leads : Leads P (write_txn t) (λ w. Recorded P t.event_id)
  unfolding write_txn
  write_txn-Leads = record {
    run = λ db p. elim (Bool-cases (has_event t.event_id db.txns)) [
      | inl e ↦ rw e (p, e)
      | inr e ↦ rw e (insert_txn-Leads.run db p)
    ];
  }

-- Locking an account reads only.
pub lock_account-Keeps : {P : Db → Type 0} (account : Uuid) → Keeps P (lock_account account)
unfolding lock_account
lock_account-Keeps {P} account =
    Leads-bind (Leads-gets {P = P} {Q = λ _. P} (λ db. lookup account db.next_seq) λ db h. h)
      λ found. Leads-or_fail found no_such_account λ db n e h. h

-- The assertion reads the lease and changes nothing.
assert_lease-cases :
    (lease : Option ℕ) (db : Db)
    → (assert_lease lease db ≡ ok (tt, db)) ⊎ ((x : Error) × (assert_lease lease db ≡ err x))
unfolding assert_lease
assert_lease-cases none db = inl refl
assert_lease-cases (some n) db = elim (Option-cases db.lease) [
  | inl e ↦ inr (lease_lost, rw e refl)
  | inr (r, e) ↦ elim (Bool-cases (r.epoch == n)) [
    | inl t ↦ inl (rw (e, t) refl)
    | inr f ↦ inr (lease_lost, rw (e, f) refl)
  ]
]

pub assert_lease-same :
    (lease : Option ℕ) (db db' : Db)
    → assert_lease lease db ≡ ok (tt, db)
    → db'.lease ≡ db.lease
    → assert_lease lease db' ≡ ok (tt, db')
unfolding assert_lease
assert_lease-same none db db' e same = refl
assert_lease-same (some n) db db' e same = rw same (ground arith)

err-ne-ok : {A B : Type 0} {x : Error} {a : A} → ◌≡◌ {A = Result A} (err x) (ok a) → B
err-ne-ok e = cc

pub in_tx-asserted :
    {A : Type 0} (lease : Option ℕ) (fn : Tx A) (db db' : Db) (a : A)
    → in_tx lease fn db ≡ ok (a, db')
    → assert_lease lease db ≡ ok (tt, db)
unfolding in_tx
in_tx-asserted lease fn db db' a e = elim (assert_lease-cases lease db) [
  | inl h ↦ h
  | inr (x, h) ↦ err-ne-ok (rw (h, bind_result) at e)
]

commit-Ok :
    {A : Type 0} (Q : A → Db → Type 0) (before : List Txn) (r : Result (A × Db))
    → Ok Q r
    → Ok Q (commit before r)
commit-Ok Q before (ok (a, db)) q =
    elim (Bool-cases (all_balanced (inserted_since before db.txns))) [
      | inl e ↦ rw e q
      | inr e ↦ rw e tt
    ]
commit-Ok Q before (err x) q = tt

-- A commit adds nothing to what the statements establish, and one that inserted nothing succeeds.
pub inserted_since-same : (ts : List Txn) → inserted_since ts ts ≡ []
inserted_since-same ts = let none_new : length ts - length ts ≡ 0 = omega arith in rw none_new refl

pub in_tx-Leads :
    {A : Type 0} {P : Db → Type 0} {Q : A → Db → Type 0} (lease : Option ℕ) {fn : Tx A}
    → Leads P fn Q
    → Leads P (in_tx lease fn) Q
unfolding in_tx
in_tx-Leads {Q} lease {fn} h = record {
  run = λ db p. elim (assert_lease-cases lease db) [
    | inl e ↦ rw (e, bind_result) (commit-Ok Q db.txns (fn db) (h.run db p))
    | inr (x, e) ↦ rw (e, bind_result) tt
  ];
}
