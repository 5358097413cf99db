-- ===== src/Engine/Snapshot/Later.antt =====
-- internal/engine/snapshot.go: checkpoints under a ledger that grows.
use trade_execution_operatin.Common.{
  ◌≡◌, refl, sym, List, [], ◌∷◌, ◌++◌, arith, Bool, true, false, ◌&&◌, ◌||◌, Bool-cases, inl, inr,
  All, ◌==◌, ==_iff,
}
use trade_execution_operatin.Common.Int.{pos, ltb_ℤ, leb_ℤ, eqb_ℤ}
use trade_execution_operatin.Engine.Db.{Txn, Db}
use trade_execution_operatin.Engine.Replay.{txns_between, replay_account_range}
use trade_execution_operatin.Engine.Snapshot.{SnapshotRow, recover_state, checkpoint}
use trade_execution_operatin.Engine.Snapshot.Recovery.{
  SoundRow, Sound, recover_state-replay_account,
}
use trade_execution_operatin.Engine.Snapshot.Checkpoint.{snapshot-Sound}
use trade_execution_operatin.Book.{Uuid}
use trade_execution_operatin.Engine.Replay.{ReplayState, replay_account}
use trade_execution_operatin.Engine.Replay.Same.{Same}
use trade_execution_operatin.Engine.Replay.Format.{decoded}
use trade_execution_operatin.Engine.Replay.Format.Roundtrip.{IsEncodable}

and_false : (b : Bool) → (b && false) ≡ false
and_false b = ground arith

abbrev pub LaterThan : Txn → SnapshotRow → Type 0
LaterThan t r = t.account ≡ r.account → ltb_ℤ r.account_seq (pos t.seq) ≡ true

module _ (db : Db) (t : Txn) where
  beyond :
      (r : SnapshotRow)
      → ltb_ℤ (pos 0) r.account_seq ≡ true
      → LaterThan t r
      → txns_between r.account (pos 0) r.account_seq (t ∷ db.txns)
        ≡ txns_between r.account (pos 0) r.account_seq db.txns
  unfolding txns_between
  beyond r positive later = elim (Bool-cases (r.account == t.account)) [
    | inl mine ↦
        let above = later (sym ((==_iff r.account t.account).0 mine)) in
        let out : (eqb_ℤ r.account_seq (pos 0) || leb_ℤ (pos t.seq) r.account_seq) ≡ false =
          ground arith in
        rw (mine, out, and_false (ltb_ℤ (pos 0) (pos t.seq))) refl
    | inr other ↦ rw other refl
  ]

  still :
      (r : SnapshotRow)
      → LaterThan t r
      → SoundRow db r
      → SoundRow (record db { txns = t ∷ db.txns }) r
  unfolding replay_account_range
  still r later h = record {
    state = h.state;
    reads = h.reads;
    seq = h.seq;
    positive = h.positive;
    replayed = rw (beyond r h.positive later) h.replayed;
  }

  Sound-later :
      (snaps : List SnapshotRow)
      → All (LaterThan t) snaps
      → Sound db snaps
      → Sound (record db { txns = t ∷ db.txns }) snaps
  Sound-later [] later h = tt
  Sound-later (r ∷ rs) later h = (still r later.0 h.0, Sound-later rs later.1 h.1)

-- The ledger, grown by transactions; the latest is the first.
abbrev pub grown : List Txn → Db → Db
grown ts db = record db { txns = ts ++ db.txns }

abbrev pub AllLater : List SnapshotRow → List Txn → Type 0
AllLater snaps ts = All (λ (t : Txn). All (LaterThan t) snaps) ts

Sound-grown :
    (db : Db) (ts : List Txn) (snaps : List SnapshotRow)
    → AllLater snaps ts
    → Sound db snaps
    → Sound (grown ts db) snaps
Sound-grown db [] snaps later h = h
Sound-grown db (t ∷ ts) snaps later h =
    Sound-later (grown ts db) t snaps later.0 (Sound-grown db ts snaps later.1 h)

-- Checkpoints serve every later recovery. Let the table hold sound checkpoints, let Snapshot write one
-- more of a state that can be encoded, and let the ledger grow by transactions whose sequence numbers are
-- above those of their account's checkpoints. Then RecoverState of any account, from the table that
-- Snapshot left, agrees with ReplayAccount over the whole grown ledger.
pub recover_state-grown :
    (db : Db) (snaps : List SnapshotRow) (account other : Uuid) (s : ReplayState) (ts : List Txn)
    → Sound db snaps
    → recover_state db snaps account ≡ decoded s
    → IsEncodable s
    → AllLater (checkpoint account s snaps) ts
    → (s' : ReplayState) × ((recover_state (grown ts db) (checkpoint account s snaps) other
          ≡ decoded s')
        × Same s' (replay_account (grown ts db) other))
recover_state-grown db snaps account other s ts h e enc later =
    recover_state-replay_account (grown ts db) (checkpoint account s snaps) other
      (Sound-grown db ts _ later (snapshot-Sound db snaps account s h e enc).1.1)
