-- ===== src/Engine/Lease.antt =====
-- The partition lease of internal/engine/lease.go: AcquireLease, Renew and Release, on the row that
-- Lease.assert reads.
pub mod Fence
use trade_execution_operatin.Common.{
  ℕ, suc, Bool, true, false, ◌&&◌, Option, none, some, ◌==◌, if◌then◌else◌,
}
use trade_execution_operatin.Book.{Uuid}
use trade_execution_operatin.Engine.Db.{LeaseRow, Db, Error, lease_lost, Result, ok, err, Tx, ⊤}

-- type Lease: what the process remembers of its claim.
pub record Lease : Type 0 where
  pub owner : Uuid
  pub epoch : ℕ

abbrev pub next_epoch : Option LeaseRow → ℕ
next_epoch none = 1
next_epoch (some r) = suc r.epoch

-- AcquireLease, for the fresh owner id that the process made up. A newcomer always wins.
unfoldable pub acquire : Uuid → Db → Lease × Db
acquire owner db =
    let epoch = next_epoch db.lease in
    (
      record { owner = owner; epoch = epoch },
      record db { lease = some (record { owner = owner; epoch = epoch }) },
    )

-- WHERE owner_id = $2 AND epoch = $4
abbrev pub holds : Lease → Option LeaseRow → Bool
holds l none = false
holds l (some r) = (r.owner == l.owner) && (r.epoch == l.epoch)

-- Renew: no row affected is ErrLeaseLost.
unfoldable pub renew : Lease → Tx ⊤
renew l db = if holds l db.lease then ok (tt, db) else err lease_lost

-- Release: the row is deleted.
unfoldable pub release : Lease → Db → Db
release l db = if holds l db.lease then record db { lease = none } else db
