-- ===== src/Engine/Snapshot/Tests.antt =====
-- Replays, snapshots and recoveries of one small ledger: internal/engine/replay.go and snapshot.go.
use trade_execution_operatin.Common.{
  ◌≡◌, refl, List, [], ◌∷◌, none, some, arith, Bool-cases, inl, inr, ap, sym, false, take,
  replicate, ◌++◌,
}
use mathlib.Core.Path.{subst}
use trade_execution_operatin.Common.Int.{pos, negsuc, ◌-ℤ◌, ◌+ℤ◌, ◌*ℤ◌}
use trade_execution_operatin.Common.Int64.{wrap64, to_u64, of_u64, quot64}
use trade_execution_operatin.Common.NameMap.{put, find, keys}
use trade_execution_operatin.Common.Names.{name_eq, name_eq_sound}
use trade_execution_operatin.Book.{Name}
use trade_execution_operatin.Engine.Position.{apply, apply_buy, apply_sell, cost_out}
use trade_execution_operatin.Engine.Db.{LedgerKind, TxnKind, Txn, Db}
use trade_execution_operatin.Engine.Replay.{
  ReplayState, new_replay_state, position_of, apply_deltas, flush, add_leg, replay_rows, by_seq,
  txns_between, leg_rows, join_rows, replay_account_range, replay_account,
}
use trade_execution_operatin.Engine.Replay.Same.{Same}
use trade_execution_operatin.Engine.Replay.Split.{replay_account_range_continues}
use trade_execution_operatin.Engine.Replay.Format.{
  decoded, refused, bad_symbol_length, write, read, encode, decode_state, held, sort, insert_sorted,
  write_position, write_positions, read_or, read_position, read_positions,
}
use trade_execution_operatin.Engine.Replay.Format.Roundtrip.{IsEncodable, decode_state-encode}
use trade_execution_operatin.Engine.Replay.Format.Canonical.{encode-Same}
use trade_execution_operatin.Engine.Snapshot.{
  recover_state, load_snapshot, latest, snapshot, checkpoint, prune, delete_others, insert_snapshot,
  has_snapshot, insert_descending, seqs_descending,
}
use trade_execution_operatin.Engine.Snapshot.Recovery.{Sound, recover_state-replay_account}
use trade_execution_operatin.Engine.Snapshot.Checkpoint.{snapshot-Sound}
use trade_execution_operatin.Engine.Snapshot.Later.{AllLater, grown, recover_state-grown}

abbrev msft : Name
msft = 77 ∷ 83 ∷ 70 ∷ 84 ∷ []

abbrev bought : Txn
bought = record {
  account = 7;
  seq = 1;
  kind = TxnKind.fill_half;
  event_id = 100;
  order_id = some 50;
  fill_id = some 60;
  legs =
      record { kind = LedgerKind.cash; symbol = []; amount = negsuc 1009 }
      ∷ record { kind = LedgerKind.fees; symbol = []; amount = pos 10 }
      ∷ record { kind = LedgerKind.clearing; symbol = []; amount = pos 1000 }
      ∷ record { kind = LedgerKind.position; symbol = msft; amount = pos 4 }
      ∷ record { kind = LedgerKind.clearing; symbol = msft; amount = negsuc 3 }
      ∷ [];
}

abbrev sold : Txn
sold = record {
  account = 7;
  seq = 2;
  kind = TxnKind.fill_half;
  event_id = 101;
  order_id = some 51;
  fill_id = some 61;
  legs =
      record { kind = LedgerKind.cash; symbol = []; amount = pos 600 }
      ∷ record { kind = LedgerKind.clearing; symbol = []; amount = negsuc 599 }
      ∷ record { kind = LedgerKind.position; symbol = msft; amount = negsuc 1 }
      ∷ record { kind = LedgerKind.clearing; symbol = msft; amount = pos 2 }
      ∷ [];
}

abbrev ledger : List Txn → Db
ledger ts = record {
  next_seq = [];
  txns = ts;
  balances = [];
  positions = [];
  orders = [];
  reservations = [];
  fills = [];
  offsets = [];
  lease = none;
  outbox = [];
}

abbrev after_buy : ReplayState
after_buy = record {
  seq = pos 1;
  cash = negsuc 1009;
  fees = pos 10;
  clearing = pos 1000;
  positions = (msft, record { qty = pos 4; basis = pos 1010; realized = pos 0 }) ∷ [];
}

replay_runs : replay_account (ledger (bought ∷ [])) 7 ≡ after_buy
unfolding replay_account replay_account_range replay_rows txns_between by_seq join_rows leg_rows
    add_leg flush apply_deltas apply apply_buy put find name_eq wrap64 to_u64 of_u64 ◌-ℤ◌ ◌+ℤ◌
replay_runs = refl

abbrev after_sell : ReplayState
after_sell = record {
  seq = pos 2;
  cash = negsuc 409;
  fees = pos 10;
  clearing = pos 400;
  positions = (msft, record { qty = pos 2; basis = pos 505; realized = pos 95 }) ∷ [];
}

sale_runs : replay_account (ledger (sold ∷ bought ∷ [])) 7 ≡ after_sell
unfolding replay_account by_seq leg_rows add_leg name_eq flush wrap64 apply_deltas ◌+ℤ◌ put apply
    find apply_sell ◌-ℤ◌ apply_buy cost_out quot64 ◌*ℤ◌
sale_runs = refl

-- The same state, with its map in another order and with an empty position.
abbrev aapl : Name
aapl = 65 ∷ 65 ∷ 80 ∷ 76 ∷ []

abbrev goog : Name
goog = 71 ∷ 79 ∷ 79 ∷ 71 ∷ []

abbrev state_one : ReplayState
state_one = record after_sell {
  positions =
      (msft, record { qty = pos 2; basis = pos 505; realized = pos 95 })
      ∷ (aapl, record { qty = negsuc 0; basis = pos 0; realized = pos 3 })
      ∷ [];
}

abbrev state_two : ReplayState
state_two = record after_sell {
  positions =
      (goog, record { qty = pos 0; basis = pos 0; realized = pos 0 })
      ∷ (aapl, record { qty = negsuc 0; basis = pos 0; realized = pos 3 })
      ∷ (msft, record { qty = pos 2; basis = pos 505; realized = pos 95 })
      ∷ [];
}

state_one-IsEncodable : IsEncodable state_one
state_one-IsEncodable = record {
  seq = (omega arith, omega arith);
  cash = (omega arith, omega arith);
  fees = (omega arith, omega arith);
  clearing = (omega arith, omega arith);
  symbols = (omega arith, (omega arith, tt));
  positions = ground arith;
  count = omega arith;
}

decode_state-encode_example :
    (s : ReplayState) × ((decode_state (encode state_one) ≡ decoded s) × Same s state_one)
decode_state-encode_example = decode_state-encode state_one state_one-IsEncodable

abbrev Agree : Name → Type 0
Agree x = position_of x state_one.positions ≡ position_of x state_two.positions

neither :
    (x : Name) → name_eq x msft ≡ false → name_eq x aapl ≡ false → name_eq x goog ≡ false → Agree x
unfolding find
neither x a b c = rw (a, b, c) refl

states-Agree : (x : Name) → Agree x
unfolding find name_eq
states-Agree x = elim (Bool-cases (name_eq x msft)) [
  | inl e ↦ subst Agree (sym (name_eq_sound x msft e)) refl
  | inr not_msft ↦ elim (Bool-cases (name_eq x aapl)) [
    | inl e ↦ subst Agree (sym (name_eq_sound x aapl e)) refl
    | inr not_aapl ↦ elim (Bool-cases (name_eq x goog)) [
      | inl e ↦ subst Agree (sym (name_eq_sound x goog e)) refl
      | inr not_goog ↦ neither x not_msft not_aapl not_goog
    ]
  ]
]

encode-Same_example : encode state_one ≡ encode state_two
unfolding keys name_eq
encode-Same_example =
    encode-Same state_one state_two (refl, (refl, tt)) (refl, (refl, (refl, tt)))
      (record { seq = refl; cash = refl; fees = refl; clearing = refl; positions = states-Agree })

-- The version, the sequence number, and the cash, which is negative.
encode_runs :
    take 24 (encode state_one)
    ≡ replicate 7 0 ++ 1 ∷ replicate 7 0 ++ 2 ∷ replicate 6 255 ++ 254 ∷ 102 ∷ []
unfolding encode write to_u64
encode_runs = refl

-- A symbol of 65 bytes is written, and not read back.
abbrev long_symbol : ReplayState
long_symbol = record after_sell {
  positions = (replicate 65 65, record { qty = pos 1; basis = pos 0; realized = pos 0 }) ∷ [];
}

long_symbol_refused : decode_state (encode long_symbol) ≡ refused bad_symbol_length
unfolding encode decode_state read_or read write of_u64 to_u64 read_positions sort held
    insert_sorted read_position write_positions write_position
long_symbol_refused = refl

abbrev before : Db
before = ledger (bought ∷ [])

after_buy-IsEncodable : IsEncodable after_buy
after_buy-IsEncodable = record {
  seq = (omega arith, omega arith);
  cash = (omega arith, omega arith);
  fees = (omega arith, omega arith);
  clearing = (omega arith, omega arith);
  symbols = (omega arith, tt);
  positions = ground arith;
  count = omega arith;
}

recovered : recover_state before [] 7 ≡ decoded after_buy
unfolding recover_state load_snapshot latest
recovered = ap decoded replay_runs

recover_state-replay_account_example :
    (s : ReplayState) × ((recover_state before [] 7 ≡ decoded s) × Same s (replay_account before 7))
recover_state-replay_account_example = recover_state-replay_account before [] 7 tt

snapshot-Sound_example :
    (snapshot before [] 7 ≡ decoded (after_buy, checkpoint 7 after_buy []))
    × (Same after_buy (replay_account before 7) × Sound before (checkpoint 7 after_buy []))
snapshot-Sound_example = snapshot-Sound before [] 7 after_buy tt recovered after_buy-IsEncodable

later : AllLater (checkpoint 7 after_buy []) (sold ∷ [])
unfolding checkpoint prune delete_others insert_snapshot has_snapshot insert_descending
    seqs_descending
later = (((λ e. refl), tt), tt)

recover_state-grown_example :
    (s : ReplayState) × ((recover_state (grown (sold ∷ []) before) (checkpoint 7 after_buy []) 7
        ≡ decoded s)
      × Same s (replay_account (grown (sold ∷ []) before) 7))
recover_state-grown_example =
    recover_state-grown before [] 7 7 after_buy (sold ∷ []) tt recovered after_buy-IsEncodable later

replay_account_range_continues_example :
    replay_account_range
      (ledger (sold ∷ bought ∷ []))
      7
      (pos 1)
      (pos 0)
      (replay_account_range (ledger (sold ∷ bought ∷ [])) 7 (pos 0) (pos 1) new_replay_state)
    ≡ replay_account_range (ledger (sold ∷ bought ∷ [])) 7 (pos 0) (pos 0) new_replay_state
replay_account_range_continues_example =
    replay_account_range_continues (ledger (sold ∷ bought ∷ [])) 7 (pos 0) (pos 1) new_replay_state
      refl refl
