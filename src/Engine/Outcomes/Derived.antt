-- ===== src/Engine/Outcomes/Derived.antt =====
-- The position projection through applyFillHalf of internal/engine/outcomes.go, against the replay of
-- internal/engine/replay.go.
use mathlib.Core.Path.{subst}
use trade_execution_operatin.Common.{
  ℕ, suc, ◌<◌, ◌≡◌, refl, sym, ◌∙◌, false, some, List, ◌∷◌, ◌==◌, ==_iff, arith, Bool-cases, inl,
  inr, All-map,
}
use trade_execution_operatin.Common.Int.{pos}
use trade_execution_operatin.Common.Dict.{Dict, lookup, insert, lookup-insert}
use trade_execution_operatin.Book.{Uuid, Name}
use trade_execution_operatin.Engine.Db.{Txn, PositionRow, LedgerKind, Db, no_such_account}
use trade_execution_operatin.Engine.Db.Hoare.{
  Leads, Leads-pure, Leads-gets, Leads-or_fail, Leads-bind,
}
use trade_execution_operatin.Engine.Ledger.{
  has_event, postings, delta, lock_account, Written, written, duplicate_event, bump, bump_seq,
  insert_txn, write_txn,
}
use trade_execution_operatin.Engine.Ledger.Frame.{update_balance-Keeps, insert_rows-Leads}
use trade_execution_operatin.Engine.Replay.{position_of}
use trade_execution_operatin.Engine.Replay.Appended.{Below, replayed}
use trade_execution_operatin.Engine.Replay.Projected.{projected_positions}

-- The next sequence number of an account is positive, and above those of its transactions.
abbrev pub Sequenced : Dict ℕ → List Txn → Type 0
Sequenced next_seq ts = (a : Uuid) (n : ℕ) → lookup a next_seq ≡ some n → (0 < n) × Below a n ts

-- The position rows are what a replay of the ledger gives, for each account and symbol.
abbrev pub Replays : List PositionRow → List Txn → Type 0
Replays ps ts =
    (a : Uuid) (x : Name)
    → position_of x (projected_positions a ps) ≡ position_of x (replayed a ts).positions

abbrev pub Derived : Db → Type 0
Derived db = Sequenced db.next_seq db.txns × Replays db.positions db.txns

abbrev pub posted : Txn → Txn
posted t = record t { legs = postings t.legs }

module _ (t : Txn) where
  -- Inserted, with the number of the account not yet counted up.
  abbrev Uncounted : Db → Type 0
  Uncounted db =
      (ts : List Txn) × ((db.txns ≡ posted t ∷ ts)
        × ((lookup t.account db.next_seq ≡ some t.seq)
            × (Sequenced db.next_seq ts × Replays db.positions ts)))

  -- Counted up, with the position row not yet moved.
  abbrev pub Unmoved : Db → Type 0
  Unmoved db =
      (ts : List Txn) × ((db.txns ≡ posted t ∷ ts)
        × (Sequenced db.next_seq db.txns
            × (((0 < t.seq) × Below t.account t.seq ts) × Replays db.positions ts)))

  Below-suc : (a : Uuid) (n : ℕ) (ts : List Txn) → Below a n ts → Below a (suc n) ts
  Below-suc a n ts h = All-map ts (λ (u : Txn) k e. let b = k e in omega arith) h

  counted :
      (next_seq : Dict ℕ) (ts : List Txn)
      → lookup t.account next_seq ≡ some t.seq
      → Sequenced next_seq ts
      → Sequenced (insert t.account (suc t.seq) next_seq) (posted t ∷ ts)
  counted next_seq ts l s a n h = elim (Bool-cases (a == t.account)) [
    | inl here ↦
        let same = (==_iff a t.account).0 here in
        let next : suc t.seq ≡ n =
          the (rw here at (sym (lookup-insert a t.account (suc t.seq) next_seq) ∙ h)) in
        let below = s t.account t.seq l in
        subst (λ m. (0 < m) × Below a m (posted t ∷ ts)) next
          (
            omega arith,
            (
              (λ e. omega arith),
              subst (λ b. Below b (suc t.seq) ts) (sym same) (Below-suc t.account t.seq ts below.1),
            ),
          )
    | inr elsewhere ↦
        let old = rw elsewhere at (sym (lookup-insert a t.account (suc t.seq) next_seq) ∙ h) in
        let below = s a n old in (below.0, ((λ e. absurd (differ elsewhere (sym e))), below.1))
  ]
    where
      the : {m n : ℕ} → some m ≡ some n → m ≡ n
      the e = cc

      differ : {a b : ℕ} → (a == b) ≡ false → a ≡ b → ⊥
      differ h e = ground arith

  counts : (db : Db) → Uncounted db → Unmoved (bump t.account (lookup t.account db.next_seq) db)
  counts db (ts, (e, (l, (s, r)))) = rw l (
    ts,
    (e, (subst (Sequenced _) (sym e) (counted db.next_seq ts l s), (s t.account t.seq l, r))),
  )

  abbrev pub After : Written → Db → Type 0
  After written db = Unmoved db
  After duplicate_event db = Derived db

  insert_txn-After :
      Leads (λ db. Derived db × (lookup t.account db.next_seq ≡ some t.seq)) (insert_txn t) After
  unfolding insert_txn
  insert_txn-After =
      Leads-bind
        (insert_rows-Leads {P = λ db. Derived db × (lookup t.account db.next_seq ≡ some t.seq)}
          {Q = λ _. Uncounted} t λ db (d, l). (db.txns, (refl, (l, d))))
        λ _.
          Leads-bind
            (update_balance-Keeps {P = Uncounted} (λ db bs p. p) t.account
              (delta LedgerKind.cash t.legs (pos 0)) (delta LedgerKind.fees t.legs (pos 0)))
            λ _. Leads-bind counting λ _. Leads-pure Written.written λ db p. p
    where
      counting : Leads Uncounted (bump_seq t.account) (λ _. Unmoved)
      counting = record { run = counts }

  pub write_txn-After :
      Leads (λ db. Derived db × (lookup t.account db.next_seq ≡ some t.seq)) (write_txn t) After
  unfolding write_txn
  write_txn-After = record {
    run = λ db p. elim (Bool-cases (has_event t.event_id db.txns)) [
      | inl e ↦ rw e p.0
      | inr e ↦ rw e (insert_txn-After.run db p)
    ];
  }

pub lock_account-Derived :
    (account : Uuid)
    → Leads Derived
        (lock_account account)
        (λ n db. Derived db × (lookup account db.next_seq ≡ some n))
unfolding lock_account
lock_account-Derived account =
    Leads-bind
      (Leads-gets {P = Derived} {Q = λ found db. Derived db × (lookup account db.next_seq ≡ found)}
        (λ db. lookup account db.next_seq) λ db d. (d, refl))
      λ found.
        Leads-or_fail {Q = λ n db. Derived db × (lookup account db.next_seq ≡ some n)} found
          no_such_account λ db n e (d, l). (d, l ∙ e)
