-- ===== src/Engine/Service/Alive.antt =====
-- The exclusion that the service lease of internal/engine/lease.go gives to its holder.
use trade_execution_operatin.Common.{
  ℕ, ◌+◌, ◌≤◌, ◌≡◌, ◌≢◌, refl, true, Option, none, some, List, [], ◌∷◌, arith, All,
}
use trade_execution_operatin.Book.{Uuid}
use trade_execution_operatin.Engine.Service.{
  ServiceRow, ServiceLease, acquire_service, renew_service, release_service,
}

-- What a process may try on the role.
pub data Attempt : Type 0 where
  acquire : (owner : Uuid) (ttl now : ℕ) → Attempt
  renew : (l : ServiceLease) (now : ℕ) → Attempt
  give_up : (l : ServiceLease) → Attempt

abbrev pub attempt : Attempt → Option ServiceRow → Option ServiceRow
attempt (acquire owner ttl now) row = (acquire_service owner ttl now row).1
attempt (renew l now) row = (renew_service l now row).1
attempt (give_up l) row = release_service l row

abbrev pub attempts : List Attempt → Option ServiceRow → Option ServiceRow
attempts [] row = row
attempts (a ∷ tries) row = attempts tries (attempt a row)

-- Tried by another process than `owner`, and not later than `until`.
abbrev pub Foreign : Uuid → ℕ → Attempt → Type 0
Foreign owner until (acquire o ttl now) = now ≤ until
Foreign owner until (renew l now) = l.owner ≢ owner
Foreign owner until (give_up l) = l.owner ≢ owner

attempt-Foreign :
    (r : ServiceRow) (a : Attempt) → Foreign r.owner r.expires a → attempt a (some r) ≡ some r
unfolding acquire_service renew_service release_service
attempt-Foreign r (acquire o ttl now) h = ground arith
attempt-Foreign r (renew l now) h = ground arith
attempt-Foreign r (give_up l) h = ground arith

attempts-Foreign :
    (r : ServiceRow) (tries : List Attempt)
    → All (Foreign r.owner r.expires) tries
    → attempts tries (some r) ≡ some r
attempts-Foreign r [] h = refl
attempts-Foreign r (a ∷ tries) h = rw (attempt-Foreign r a h.0) (attempts-Foreign r tries h.1)

-- The row that a renewal leaves.
renewed_row : ServiceLease → ℕ → ServiceRow
renewed_row l now = record { owner = l.owner; epoch = l.epoch; expires = now + l.ttl }

renew_service-row :
    (l : ServiceLease) (now : ℕ) (row row' : Option ServiceRow)
    → renew_service l now row ≡ (true, row')
    → row' ≡ some (renewed_row l now)
unfolding renew_service renewed_row
renew_service-row l now none row' e = cc
renew_service-row l now (some r) row' e = ground arith

-- Mutual exclusion for a time to live: after a holder renewed its claim at `now`, and whatever other
-- processes try up to `now + ttl`, every acquisition by then is refused and changes nothing, and the
-- holder's next renewal, whenever it comes, finds the claim.
pub renewed_excludes :
    (l : ServiceLease) (now : ℕ) (row row' : Option ServiceRow) (tries : List Attempt)
    → renew_service l now row ≡ (true, row')
    → All (Foreign l.owner (now + l.ttl)) tries
    → (owner : Uuid) (ttl t : ℕ) → t ≤ now + l.ttl
    → (acquire_service owner ttl t (attempts tries row') ≡ (none, row'))
      × ((u : ℕ) → (renew_service l u (attempts tries row')).0 ≡ true)
unfolding acquire_service renew_service renewed_row
renewed_excludes l now row row' tries e h owner ttl t k =
    let same = attempts-Foreign (renewed_row l now) tries h in
    rw (renew_service-row l now row row' e, same) (ground arith, λ u. ground arith)
