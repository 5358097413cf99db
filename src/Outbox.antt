-- ===== src/Outbox.antt =====
-- internal/outbox/relay.go: the relay from the table outbox to the log.
-- The table lists its rows in the order of their ids, which is that of their insertion. Whether the
-- statement that marks rows succeeds is an argument; the log is the one in memory.
pub mod Batches
pub mod Draining
pub mod Marking
mod Tests
use trade_execution_operatin.Common.{
  ℕ, zero, suc, ◌+◌, Bool, true, false, Option, none, some, List, [], ◌∷◌, map, if◌then◌else◌,
  length, take, ltb,
}
use trade_execution_operatin.Common.Int.{ℤ, pos, leb_ℤ, pos_part}
use trade_execution_operatin.Common.Dict.{contains}
use trade_execution_operatin.Book.{Name}
use trade_execution_operatin.EventLog.{Record, MemLog, produce}

-- A row of outbox.
pub record Row : Type 0 where
  pub id : ℕ
  pub topic : Name
  pub key : Name
  pub payload : List ℕ
  pub published : Bool

-- New: the batch of a relay.
abbrev pub batch_of : ℤ → ℕ
batch_of batch = if leb_ℤ batch (pos 0) then 256 else pos_part batch

-- WHERE published_at IS NULL ORDER BY id
unfoldable pub unpublished : List Row → List Row
unpublished [] = []
unpublished (r ∷ rows) = let rest = unpublished rows in if r.published then rest else r ∷ rest

abbrev pub record_of : Row → Record
record_of r = record { topic = r.topic; partition = 0; offset = 0; key = r.key; value = r.payload }

abbrev pub ids_of : List Row → List ℕ
ids_of rows = map (λ (r : Row). r.id) rows

-- UPDATE outbox SET published_at = now() WHERE id = ANY($1)
unfoldable pub mark : List ℕ → List Row → List Row
mark ids [] = []
mark ids (r ∷ rows) =
    (if contains r.id ids then record r { published = true } else r) ∷ mark ids rows

pub data Pumped : Type 0 where
  pumped : ℕ → Pumped
  publish_failed : Name → Pumped
  mark_failed : Pumped

pub record State : Type 0 where
  pub rows : List Row
  pub log : MemLog

-- PumpOnce after the query, for the rows that it read.
unfoldable pub publish : Bool → List Row → State → State × Pumped
publish marks [] s = (s, pumped 0)
publish marks (r ∷ batch) s =
    let sent = produce (map record_of (r ∷ batch)) s.log in
    elim sent.1 [
      | some topic ↦ (record s { log = sent.0 }, publish_failed topic)
      | none ↦
          if marks
          then (
            record { rows = mark (ids_of (r ∷ batch)) s.rows; log = sent.0 },
            pumped (length (r ∷ batch)),
          )
          else (record s { log = sent.0 }, mark_failed)
    ]

-- PumpOnce
unfoldable pub pump_once : Bool → ℕ → State → State × Pumped
pump_once marks batch s = publish marks (take batch (unpublished s.rows)) s

-- Drain: the state, the total, and the error, if one ended it. The marks of a round are `marks fuel`.
pub record Drained : Type 0 where
  pub state : State
  pub total : ℕ
  pub failure : Option Pumped

-- The rest of a round of the loop, with the rounds that follow.
unfoldable pub after_pump : State × Pumped → ℕ → (State → ℕ → Option Drained) → Option Drained
after_pump (s, pumped zero) total again = some (record { state = s; total = total; failure = none })
after_pump (s, pumped (suc n)) total again = again s (total + suc n)
after_pump (s, publish_failed topic) total again =
    some (record { state = s; total = total; failure = some (publish_failed topic) })
after_pump (s, mark_failed) total again =
    some (record { state = s; total = total; failure = some mark_failed })

unfoldable pub drain : ℕ → (ℕ → Bool) → ℕ → State → ℕ → Option Drained
drain zero marks batch s total = none
drain (suc fuel) marks batch s total =
    after_pump (pump_once (marks fuel) batch s) total (drain fuel marks batch)

-- Lag: how many rows wait.
abbrev pub backlog : List Row → ℕ
backlog rows = length (unpublished rows)
