-- ===== src/Engine/Snapshot.antt =====
-- internal/engine/snapshot.go: checkpoints of the accounts, and recovery from the latest one.
-- The table snapshots is an argument beside the rows of Db. `none` of a load is ErrNoRows.
pub mod Checkpoint
pub mod Later
pub mod Recovery
mod Tests
use trade_execution_operatin.Common.{
  ℕ, ◌+◌, suc, Bool, true, false, not, ◌&&◌, ◌||◌, Option, none, some, List, [], ◌∷◌, ◌==◌,
  if◌then◌else◌, take,
}
use trade_execution_operatin.Common.Int.{ℤ, pos, eqb_ℤ, ltb_ℤ}
use trade_execution_operatin.Book.{Uuid}
use trade_execution_operatin.Engine.Db.{Db}
use trade_execution_operatin.Engine.Replay.{ReplayState, replay_account, replay_account_from}
use trade_execution_operatin.Engine.Replay.Format.{
  encode, Decoded, decoded, refused, DecodeError, ◌>>=◌, decode_state,
}

pub record SnapshotRow : Type 0 where
  pub account : Uuid
  pub account_seq : ℤ
  pub state : List ℕ

abbrev pub snapshots_kept : ℕ
snapshots_kept = 3

-- ORDER BY account_seq DESC LIMIT 1
abbrev pub newer : SnapshotRow → Option SnapshotRow → SnapshotRow
newer r none = r
newer r (some best) = if ltb_ℤ best.account_seq r.account_seq then r else best

unfoldable pub latest : Uuid → List SnapshotRow → Option SnapshotRow
latest account [] = none
latest account (r ∷ rs) =
    let rest = latest account rs in if account == r.account then some (newer r rest) else rest

-- LoadSnapshot
unfoldable pub load_snapshot : List SnapshotRow → Uuid → Decoded (Option ReplayState)
load_snapshot snaps account = elim (latest account snaps) [
  | none ↦ decoded none
  | some r ↦ decode_state r.state >>= λ s. decoded (some s)
]

abbrev pub from_snapshot : Db → Uuid → Option ReplayState → ReplayState
from_snapshot db account none = replay_account db account
from_snapshot db account (some snap) = replay_account_from db account snap.seq snap

-- RecoverState
unfoldable pub recover_state : Db → List SnapshotRow → Uuid → Decoded ReplayState
recover_state db snaps account =
    load_snapshot snaps account >>= λ found. decoded (from_snapshot db account found)

unfoldable pub has_snapshot : Uuid → ℤ → List SnapshotRow → Bool
has_snapshot account seq [] = false
has_snapshot account seq (r ∷ rs) =
    ((account == r.account) && eqb_ℤ seq r.account_seq) || has_snapshot account seq rs

-- INSERT ... ON CONFLICT (account_id, account_seq) DO NOTHING
unfoldable pub insert_snapshot : SnapshotRow → List SnapshotRow → List SnapshotRow
insert_snapshot r snaps = if has_snapshot r.account r.account_seq snaps then snaps else r ∷ snaps

-- The sequence numbers of the account's snapshots, the highest first.
unfoldable pub insert_descending : ℤ → List ℤ → List ℤ
insert_descending z [] = z ∷ []
insert_descending z (y ∷ ys) =
    let later = insert_descending z ys in if ltb_ℤ z y then y ∷ later else z ∷ y ∷ ys

unfoldable pub seqs_descending : Uuid → List SnapshotRow → List ℤ
seqs_descending account [] = []
seqs_descending account (r ∷ rs) =
    let rest = seqs_descending account rs in
    if account == r.account then insert_descending r.account_seq rest else rest

abbrev pub is_one_of : ℤ → List ℤ → Bool
is_one_of z [] = false
is_one_of z (y ∷ ys) = eqb_ℤ z y || is_one_of z ys

-- DELETE FROM snapshots WHERE account_id = $1 AND account_seq NOT IN (...)
unfoldable pub delete_others : Uuid → List ℤ → List SnapshotRow → List SnapshotRow
delete_others account kept [] = []
delete_others account kept (r ∷ rs) =
    let rest = delete_others account kept rs in
    if (account == r.account) && not (is_one_of r.account_seq kept) then rest else r ∷ rest

unfoldable pub prune : Uuid → List SnapshotRow → List SnapshotRow
prune account snaps =
    delete_others account (take snapshots_kept (seqs_descending account snaps)) snaps

-- The part of Snapshot that follows the recovery.
unfoldable pub checkpoint : Uuid → ReplayState → List SnapshotRow → List SnapshotRow
checkpoint account s snaps =
    if eqb_ℤ s.seq (pos 0)
    then snaps
    else prune account (
        insert_snapshot (record { account = account; account_seq = s.seq; state = encode s }) snaps)

-- Snapshot
unfoldable pub snapshot : Db → List SnapshotRow → Uuid → Decoded (ReplayState × List SnapshotRow)
snapshot db snaps account =
    recover_state db snaps account >>= λ s. decoded (s, checkpoint account s snaps)

-- SnapshotAll, for the accounts that Accounts lists: the count, the table, and the error that ended
-- the loop.
unfoldable pub snapshot_all :
    Db → List SnapshotRow → List Uuid → ℕ → ℕ × (List SnapshotRow × Option DecodeError)
snapshot_all db snaps [] n = (n, (snaps, none))
snapshot_all db snaps (a ∷ accounts) n = elim (snapshot db snaps a) [
  | refused e ↦ (n, (snaps, some e))
  | decoded r ↦ snapshot_all db r.1 accounts (if ltb_ℤ (pos 0) r.0.seq then suc n else n)
]
