-- ===== src/Engine/Replay.antt =====
-- internal/engine/replay.go: the financial state of an account, rebuilt from the ledger.
-- A row of the joined query is read at a time, and the legs of one transaction are applied together.
pub mod Format
pub mod Projected
pub mod Same
pub mod Applied
pub mod Half
pub mod Appended
pub mod Split
use trade_execution_operatin.Common.{
  ℕ, ◌≡◌, ◌&&◌, ◌||◌, Bool, Option, none, some, List, [], ◌∷◌, ◌++◌, ltb, leb, ◌==◌, if◌then◌else◌,
  ◌<◌, ◌≤◌,
}
use trade_execution_operatin.Common.Int.{ℤ, pos, ltb_ℤ, leb_ℤ, eqb_ℤ}
use trade_execution_operatin.Common.Int64.{add64}
use trade_execution_operatin.Common.NameMap.{NameMap, put, find}
use trade_execution_operatin.Common.Names.{name_eq}
use trade_execution_operatin.Money.{Minor, Qty}
use trade_execution_operatin.Book.{Uuid, Name}
use trade_execution_operatin.Engine.Position.{PositionState, apply}
use trade_execution_operatin.Engine.Db.{LedgerKind, Leg, Txn, Db}

pub record ReplayState : Type 0 where
  pub seq : ℤ
  pub cash : Minor
  pub fees : Minor
  pub clearing : Minor
  pub positions : NameMap PositionState

abbrev pub new_replay_state : ReplayState
new_replay_state = record {
  seq = pos 0;
  cash = pos 0;
  fees = pos 0;
  clearing = pos 0;
  positions = [];
}

abbrev pub no_position : PositionState
no_position = record { qty = pos 0; basis = pos 0; realized = pos 0 }

-- m[sym]: the zero value for a missing key.
abbrev pub or_zero : Option PositionState → PositionState
or_zero none = no_position
or_zero (some p) = p

abbrev pub position_of : Name → NameMap PositionState → PositionState
position_of sym m = or_zero (find sym m)

pub record TxnLegs : Type 0 where
  pub seq : ℕ
  pub cash : Minor
  pub fees : Minor
  pub clearing : Minor
  pub positions : NameMap Qty

-- A row of the query: the columns that are scanned.
pub record ReplayRow : Type 0 where
  pub seq : ℕ
  pub kind : LedgerKind
  pub symbol : Name
  pub amount : ℤ

-- The loop of flush over the deltas of one transaction.
unfoldable pub apply_deltas : Minor → NameMap Qty → NameMap PositionState → NameMap PositionState
apply_deltas cash [] m = m
apply_deltas cash (d ∷ ds) m = apply_deltas cash ds (put d.0 (apply (position_of d.0 m) d.1 cash) m)

-- flush
unfoldable pub flush : Option TxnLegs → ReplayState → ReplayState
flush none s = s
flush (some t) s = record {
  seq = pos t.seq;
  cash = add64 s.cash t.cash;
  fees = add64 s.fees t.fees;
  clearing = add64 s.clearing t.clearing;
  positions = apply_deltas t.cash t.positions s.positions;
}

abbrev pub or_no_shares : Option Qty → Qty
or_no_shares none = pos 0
or_no_shares (some q) = q

-- The switch on the kind of a row.
unfoldable pub add_leg : ReplayRow → TxnLegs → TxnLegs
add_leg r t = elim r.kind [
  | LedgerKind.cash ↦ record t { cash = add64 t.cash r.amount }
  | LedgerKind.fees ↦ record t { fees = add64 t.fees r.amount }
  | LedgerKind.clearing ↦
      if name_eq r.symbol [] then record t { clearing = add64 t.clearing r.amount } else t
  | LedgerKind.position ↦ record t {
    positions =
        put r.symbol (add64 (or_no_shares (find r.symbol t.positions)) r.amount) t.positions;
  }
  | LedgerKind.external ↦ t
]

abbrev pub new_legs : ℕ → TxnLegs
new_legs seq = record { seq = seq; cash = pos 0; fees = pos 0; clearing = pos 0; positions = [] }

-- The loop over the rows, with `current` and the state, and the flush after it.
unfoldable pub replay_rows : List ReplayRow → Option TxnLegs → ReplayState → ReplayState
replay_rows [] current s = flush current s
replay_rows (r ∷ rs) none s = replay_rows rs (some (add_leg r (new_legs r.seq))) s
replay_rows (r ∷ rs) (some t) s =
    let same = replay_rows rs (some (add_leg r t)) s in
    let next = replay_rows rs (some (add_leg r (new_legs r.seq))) (flush (some t) s) in
    if t.seq == r.seq then same else next

-- ORDER BY account_seq: of two equal ones the one that was written first stays first.
unfoldable pub by_seq : Txn → List Txn → List Txn
by_seq t [] = t ∷ []
by_seq t (u ∷ us) = let later = by_seq t us in if ltb t.seq u.seq then t ∷ u ∷ us else u ∷ later

-- The transactions of the account in (from, to]; a `to` of zero is the end. The table lists the
-- latest first.
unfoldable pub txns_between : Uuid → ℤ → ℤ → List Txn → List Txn
txns_between account from to [] = []
txns_between account from to (t ∷ older) =
    let rest = txns_between account from to older in
    if ((account == t.account) && ltb_ℤ from (pos t.seq))
      && (eqb_ℤ to (pos 0) || leb_ℤ (pos t.seq) to)
    then by_seq t rest
    else rest

unfoldable pub leg_rows : ℕ → List Leg → List ReplayRow
leg_rows seq [] = []
leg_rows seq (l ∷ ls) =
    record { seq = seq; kind = l.kind; symbol = l.symbol; amount = l.amount } ∷ leg_rows seq ls

unfoldable pub join_rows : List Txn → List ReplayRow
join_rows [] = []
join_rows (t ∷ ts) = leg_rows t.seq t.legs ++ join_rows ts

-- ReplayAccountRange
unfoldable pub replay_account_range : Db → Uuid → ℤ → ℤ → ReplayState → ReplayState
unfolding replay_rows join_rows txns_between
replay_account_range db account from_seq to_seq from =
    replay_rows (join_rows (txns_between account from_seq to_seq db.txns)) none from

-- ReplayAccount
unfoldable pub replay_account : Db → Uuid → ReplayState
unfolding replay_account_range
replay_account db account = replay_account_range db account (pos 0) (pos 0) new_replay_state

-- ReplayAccountFrom
unfoldable pub replay_account_from : Db → Uuid → ℤ → ReplayState → ReplayState
unfolding replay_account_range
replay_account_from db account from_seq from = replay_account_range db account from_seq (pos 0) from
