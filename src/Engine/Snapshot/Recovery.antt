-- ===== src/Engine/Snapshot/Recovery.antt =====
-- internal/engine/snapshot.go: a recovery agrees with the replay from genesis.
use mathlib.Core.Path.{subst}
use trade_execution_operatin.Common.{
  ◌≡◌, refl, sym, List, [], ◌∷◌, arith, true, Bool-cases, Option-cases, Option, none, some, inl,
  inr, All, ◌==◌, ==_iff,
}
use trade_execution_operatin.Common.Int.{pos, ltb_ℤ}
use trade_execution_operatin.Book.{Uuid}
use trade_execution_operatin.Engine.Db.{Db}
use trade_execution_operatin.Engine.Replay.{
  ReplayState, new_replay_state, replay_account_range, replay_account, replay_account_from,
}
use trade_execution_operatin.Engine.Replay.Same.{Same, Same_refl, replay_account_range-Same}
use trade_execution_operatin.Engine.Replay.Split.{replay_account_range_continues}
use trade_execution_operatin.Engine.Replay.Format.{decoded, decode_state}
use trade_execution_operatin.Engine.Snapshot.{
  SnapshotRow, newer, latest, load_snapshot, recover_state,
}

-- A row is sound if its bytes are those of the account's replay up to the row's sequence number.
pub record SoundRow (db : Db) (r : SnapshotRow) : Type 0 where
  pub state : ReplayState
  pub reads : decode_state r.state ≡ decoded state
  pub seq : state.seq ≡ r.account_seq
  pub positive : ltb_ℤ (pos 0) r.account_seq ≡ true
  pub replayed :
      Same state (replay_account_range db r.account (pos 0) r.account_seq new_replay_state)

abbrev pub Sound : Db → List SnapshotRow → Type 0
Sound db snaps = All (SoundRow db) snaps

module _ (db : Db) (account : Uuid) where
  abbrev SoundFor : SnapshotRow → Type 0
  SoundFor r = SoundRow db r × (account ≡ r.account)

  newer-Sound :
      (r : SnapshotRow) (o : Option SnapshotRow)
      → SoundFor r
      → ((b : SnapshotRow) → o ≡ some b → SoundFor b)
      → SoundFor (newer r o)
  newer-Sound r none h k = h
  newer-Sound r (some b) h k = elim (Bool-cases (ltb_ℤ b.account_seq r.account_seq)) [
    | inl e ↦ rw e h
    | inr e ↦ rw e (k b refl)
  ]

  latest-Sound :
      (snaps : List SnapshotRow) (r : SnapshotRow)
      → Sound db snaps
      → latest account snaps ≡ some r
      → SoundFor r
  unfolding latest
  latest-Sound [] r h e = absurd (none-ne e)
    where
      none-ne : {r : SnapshotRow} → none ≡ some r → ⊥
      none-ne e = cc
  latest-Sound (s ∷ snaps) r h e = elim (Bool-cases (account == s.account)) [
    | inl mine ↦ subst SoundFor (the (rw mine at e)) (
        newer-Sound s (latest account snaps) (h.0, (==_iff account s.account).0 mine)
          λ b eb. latest-Sound snaps b h.1 eb)
    | inr other ↦ latest-Sound snaps r h.1 (rw other at e)
  ]
    where
      the : {a b : SnapshotRow} → some a ≡ some b → a ≡ b
      the e = cc

-- What continues from a sound row is the replay from genesis.
from_row-Same :
    (db : Db) (r : SnapshotRow) (h : SoundRow db r)
    → Same (replay_account_from db r.account h.state.seq h.state) (replay_account db r.account)
unfolding replay_account_from replay_account
from_row-Same db r h =
    let k = r.account_seq in
    let cut = replay_account_range db r.account (pos 0) k new_replay_state in
    let whole =
      replay_account_range_continues db r.account (pos 0) k new_replay_state h.positive
        (ground (arith, h.positive)) in
    subst
      (λ q.
        Same (replay_account_range db r.account q (pos 0) h.state) (replay_account db r.account))
      (sym h.seq)
      (subst (λ s. Same (replay_account_range db r.account k (pos 0) h.state) s) whole
        (replay_account_range-Same db r.account k (pos 0) h.state cut h.replayed))

-- RecoverState, from any table of sound checkpoints, agrees with ReplayAccount: it answers a state, with
-- the sequence number, the sums and the positions of the replay from genesis.
pub recover_state-replay_account :
    (db : Db) (snaps : List SnapshotRow) (account : Uuid)
    → Sound db snaps
    → (s : ReplayState) × ((recover_state db snaps account ≡ decoded s)
        × Same s (replay_account db account))
unfolding recover_state load_snapshot
recover_state-replay_account db snaps account h = elim (Option-cases (latest account snaps)) [
  | inl e ↦ (
    replay_account db account,
    (rw (e, load_snapshot) refl, Same_refl (replay_account db account)),
  )
  | inr (r, e) ↦
      let (row, mine) = latest-Sound db account snaps r h e in
      (
        replay_account_from db account row.state.seq row.state,
        (
          rw (e, load_snapshot, row.reads) refl,
          subst (λ a. Same (replay_account_from db a row.state.seq row.state) (replay_account db a))
              (sym mine) (from_row-Same db r row),
        ),
      )
]
