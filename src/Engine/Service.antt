-- ===== src/Engine/Service.antt =====
-- The service lease of internal/engine/lease.go, for one role: AcquireService refuses while a holder
-- is alive, since no database can veto what its holder produces. Times are seconds of the database.
pub mod Alive
use trade_execution_operatin.Common.{
  ℕ, suc, ◌+◌, Bool, true, false, ◌&&◌, Option, none, some, List, [], ◌∷◌, ltb, ◌==◌, if◌then◌else◌,
}
use trade_execution_operatin.Book.{Uuid}

-- The row of service_leases for the role.
pub record ServiceRow : Type 0 where
  pub owner : Uuid
  pub epoch : ℕ
  pub expires : ℕ

-- type ServiceLease
pub record ServiceLease : Type 0 where
  pub owner : Uuid
  pub epoch : ℕ
  pub ttl : ℕ

-- The row that an acquisition writes, and the claim it returns.
abbrev pub granted : Uuid → ℕ → ℕ → ℕ → Option ServiceLease × Option ServiceRow
granted owner epoch ttl now = (
  some (record { owner = owner; epoch = epoch; ttl = ttl }),
  some (record { owner = owner; epoch = epoch; expires = now + ttl }),
)

-- AcquireService, at a time: a role without a row, or whose row has expired, is granted.
unfoldable pub acquire_service :
    Uuid → ℕ → ℕ → Option ServiceRow → Option ServiceLease × Option ServiceRow
acquire_service owner ttl now none = granted owner 1 ttl now
acquire_service owner ttl now (some r) =
    if ltb r.expires now then granted owner (suc r.epoch) ttl now else (none, some r)

abbrev pub holds_service : ServiceLease → Option ServiceRow → Bool
holds_service l none = false
holds_service l (some r) = (r.owner == l.owner) && (r.epoch == l.epoch)

-- ServiceLease.Renew, and whether it found its row: a lease that expired and was not taken may be
-- renewed still.
unfoldable pub renew_service : ServiceLease → ℕ → Option ServiceRow → Bool × Option ServiceRow
renew_service l now none = (false, none)
renew_service l now (some r) =
    if holds_service l (some r)
    then (true, some (record r { expires = now + l.ttl }))
    else (false, some r)

-- ServiceLease.Release
unfoldable pub release_service : ServiceLease → Option ServiceRow → Option ServiceRow
release_service l row = if holds_service l row then none else row
