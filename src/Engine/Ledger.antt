-- ===== src/Engine/Ledger.antt =====
-- The double-entry ledger of internal/engine: lockAccount, writeTxn and inTx of engine.go, the lease
-- assertion of lease.go, halfFillLegs of outcomes.go, and the balance trigger of the schema.
pub mod Balanced
pub mod Frame
pub mod Sums
use trade_execution_operatin.Common.{
  ℕ, suc, ◌+◌, ◌-◌, take, length, Bool, true, false, not, ◌&&◌, ◌||◌, Option, none, some, List, [],
  ◌∷◌, ◌==◌, if◌then◌else◌,
}
use trade_execution_operatin.Common.Int.{ℤ, pos, ◌+ℤ◌, eqb_ℤ}
use trade_execution_operatin.Common.Int64.{add64, sub64, neg64}
use trade_execution_operatin.Common.Dict.{lookup, insert}
use trade_execution_operatin.Common.Names.{name_eq}
use trade_execution_operatin.Money.{Minor, Qty}
use trade_execution_operatin.Book.{Uuid, Name}
use trade_execution_operatin.Engine.Db.{
  LedgerKind, TxnKind, LeaseRow, Leg, Txn, BalanceRow, Db, Error, no_such_account, unbalanced,
  txn_conflict, lease_lost, Result, ok, err, Tx, ⊤, pure, fail, or_fail, gets, modify, bigint,
  bind_result, ◌>>=◌, ◌>>◌,
}

-- lockAccount: the account's next sequence number. Transactions on one account are run one after
-- the other, which is what the row lock gives.
unfoldable pub lock_account : Uuid → Tx ℕ
lock_account account = do or_fail (← gets (λ db. lookup account db.next_seq)) no_such_account

-- ON CONFLICT (event_id) DO NOTHING
abbrev pub has_event : Uuid → List Txn → Bool
has_event e [] = false
has_event e (t ∷ ts) = (e == t.event_id) || has_event e ts

-- Zero postings are skipped.
abbrev pub postings : List Leg → List Leg
postings [] = []
postings (l ∷ ls) = let rest = postings ls in if eqb_ℤ l.amount (pos 0) then rest else l ∷ rest

-- dCash and dFees: the sums over the legs of one kind, on int64.
abbrev pub leg_of : LedgerKind → Leg → ℤ
leg_of LedgerKind.cash l = elim l.kind [ LedgerKind.cash ↦ l.amount | _ ↦ pos 0 ]
leg_of LedgerKind.fees l = elim l.kind [ LedgerKind.fees ↦ l.amount | _ ↦ pos 0 ]
leg_of _ l = pos 0

unfoldable pub delta : LedgerKind → List Leg → ℤ → ℤ
delta k [] acc = acc
delta k (l ∷ ls) acc = delta k ls (add64 acc (leg_of k l))

abbrev pub balance_row : Option BalanceRow → BalanceRow
balance_row none = record { cash = pos 0; fees = pos 0 }
balance_row (some b) = b

-- The upsert into account_balances, unless both sums are zero.
upsert_balance : Uuid → ℤ → ℤ → Tx ⊤
upsert_balance account d_cash d_fees = do
  old ← gets (λ db. balance_row (lookup account db.balances))
  cash ← bigint (old.cash +ℤ d_cash)
  fees ← bigint (old.fees +ℤ d_fees)
  modify (λ db. record db {
    balances = insert account (record { cash = cash; fees = fees }) db.balances;
  })

unfoldable pub update_balance : Uuid → ℤ → ℤ → Tx ⊤
unfolding upsert_balance
update_balance account d_cash d_fees =
    if eqb_ℤ d_cash (pos 0) && eqb_ℤ d_fees (pos 0)
    then pure tt
    else upsert_balance account d_cash d_fees

-- ErrDuplicateEvent is an answer that the caller handles.
pub data Written : Type 0 where
  written duplicate_event : Written

-- bumpSeq: `next_seq + 1`, on the row of the account.
abbrev pub bump : Uuid → Option ℕ → Db → Db
bump account none db = db
bump account (some n) db = record db { next_seq = insert account (suc n) db.next_seq }

abbrev pub bump_seq : Uuid → Tx ⊤
bump_seq account = modify (λ db. bump account (lookup account db.next_seq) db)

-- UNIQUE (account_id, account_seq)
abbrev pub seq_taken : Uuid → ℕ → List Txn → Bool
seq_taken account seq [] = false
seq_taken account seq (t ∷ ts) =
    ((account == t.account) && (seq == t.seq)) || seq_taken account seq ts

-- The rows of transactions and postings.
unfoldable pub insert_rows : Txn → Tx ⊤
insert_rows t db =
    if seq_taken t.account t.seq db.txns
    then err txn_conflict
    else ok (tt, record db { txns = record t { legs = postings t.legs } ∷ db.txns })

-- The insertion of writeTxn, for an event that is new.
unfoldable pub insert_txn : Txn → Tx Written
unfolding delta update_balance insert_rows
insert_txn t = do
  insert_rows t
  update_balance t.account (delta LedgerKind.cash t.legs (pos 0))
      (delta LedgerKind.fees t.legs (pos 0))
  bump_seq t.account
  pure Written.written

-- writeTxn
unfoldable pub write_txn : Txn → Tx Written
unfolding insert_txn
write_txn t db =
    let new = insert_txn t db in
    if has_event t.event_id db.txns then ok (Written.duplicate_event, db) else new

-- The unit of a leg: the symbol, or "USD" for money (ledgerAccount).
abbrev pub unit_of : Leg → Name
unit_of l = elim l.symbol [ [] ↦ 85 ∷ 83 ∷ 68 ∷ [] | c ∷ cs ↦ c ∷ cs ]

-- assert_txn_balanced: the postings of a transaction sum to zero in each unit.
unfoldable pub unit_total : Name → List Leg → ℤ
unit_total u [] = pos 0
unit_total u (l ∷ ls) =
    let rest = unit_total u ls in if name_eq u (unit_of l) then l.amount +ℤ rest else rest

abbrev pub units_zero : List Leg → List Leg → Bool
units_zero [] all = true
units_zero (l ∷ ls) all = eqb_ℤ (unit_total (unit_of l) all) (pos 0) && units_zero ls all

unfoldable pub txn_balanced : List Leg → Bool
unfolding unit_total name_eq
txn_balanced ls = units_zero ls ls

abbrev pub all_balanced : List Txn → Bool
all_balanced [] = true
all_balanced (t ∷ ts) = txn_balanced t.legs && all_balanced ts

-- Lease.assert, for a process that holds `epoch`; `none` is an engine without a lease.
unfoldable pub assert_lease : Option ℕ → Tx ⊤
assert_lease none db = ok (tt, db)
assert_lease (some epoch) db = elim db.lease [
  | none ↦ err lease_lost
  | some current ↦ if current.epoch == epoch then ok (tt, db) else err lease_lost
]

-- The rows that were inserted since `before`, in front of the others.
abbrev pub inserted_since : List Txn → List Txn → List Txn
inserted_since before ts = take (length ts - length before) ts

-- The commit, with the deferred trigger, which fires for each posting that was inserted.
abbrev pub commit : {A : Type 0} → List Txn → Result (A × Db) → Result (A × Db)
commit before (ok (a, db)) =
    if all_balanced (inserted_since before db.txns) then ok (a, db) else err unbalanced
commit before (err e) = err e

-- inTx
unfoldable pub in_tx : {A : Type 0} → Option ℕ → Tx A → Tx A
in_tx lease fn db = bind_result (assert_lease lease db) (λ _ db'. commit db'.txns (fn db'))

-- halfFillLegs
unfoldable pub half_fill_legs : Name → Qty → Minor → Minor → Bool → List Leg
half_fill_legs symbol qty notional fee buying =
    let signed = λ (z : ℤ). if buying then z else neg64 z in
    record { kind = LedgerKind.cash; symbol = []; amount = sub64 (neg64 (signed notional)) fee }
    ∷ record { kind = LedgerKind.fees; symbol = []; amount = fee }
    ∷ record { kind = LedgerKind.clearing; symbol = []; amount = signed notional }
    ∷ record { kind = LedgerKind.position; symbol = symbol; amount = signed qty }
    ∷ record { kind = LedgerKind.clearing; symbol = symbol; amount = neg64 (signed qty) }
    ∷ []
