-- ===== src/Engine/Db.antt =====
-- The rows that the statements of internal/engine read and write (migrations/0001_init.sql), and a
-- database transaction: state and error, with the error rolling everything back.
-- A bigint column holds an int64; a sum that leaves the range is an error of the database.
pub mod Hoare
use trade_execution_operatin.Common.{
  ℕ, Bool, true, false, ◌&&◌, Option, none, some, List, if◌then◌else◌,
}
use trade_execution_operatin.Common.Int.{ℤ}
use trade_execution_operatin.Common.Dict.{Dict}
use trade_execution_operatin.Money.{Minor, Qty}
use trade_execution_operatin.Money.Band.{fits}
use trade_execution_operatin.Book.{Uuid, Name, Side, OrderType, Tif}
use trade_execution_operatin.Engine.Position.{PositionState}

-- CREATE TYPE order_status
pub data Status : Type 0 where
  accepted partially_filled filled cancelled rejected pending_cancel expired : Status

-- CREATE TYPE ledger_kind, txn_kind and res_kind: the values that the code writes.
pub data LedgerKind : Type 0 where
  cash position fees clearing external : LedgerKind

pub data TxnKind : Type 0 where
  deposit fill_half : TxnKind

pub data ResKind : Type 0 where
  cash shares : ResKind

-- type leg: one posting. The empty symbol is the cash unit.
pub record Leg : Type 0 where
  pub kind : LedgerKind
  pub symbol : Name
  pub amount : ℤ

pub record Txn : Type 0 where
  pub account : Uuid
  pub seq : ℕ
  pub kind : TxnKind
  pub event_id : Uuid
  pub order_id : Option Uuid
  pub fill_id : Option Uuid
  pub legs : List Leg

pub record OrderRow : Type 0 where
  pub id : Uuid
  pub account : Uuid
  pub symbol : Name
  pub side : Side
  pub order_type : OrderType
  pub tif : Tif
  pub qty : ℤ
  pub limit_price : ℤ
  pub ref_price : ℤ
  pub status : Status
  pub reject_reason : Option Name
  pub filled_qty : ℤ
  pub filled_notional : ℤ
  pub client_order_id : Name

pub record ReservationRow : Type 0 where
  pub account : Uuid
  pub kind : ResKind
  pub symbol : Name
  pub reserved : ℤ
  pub consumed : ℤ
  pub released : ℤ
  pub unit_price : Option ℤ
  pub fee_bps : ℤ

pub record FillRow : Type 0 where
  pub shard_id : ℕ
  pub symbol : Name
  pub venue : Name
  pub book_seq : ℕ
  pub price : ℤ
  pub qty : ℤ
  pub taker_order : Uuid
  pub maker_order : Uuid

pub record PositionRow : Type 0 where
  pub account : Uuid
  pub symbol : Name
  pub state : PositionState

-- type Balances, as account_balances keeps it.
pub record BalanceRow : Type 0 where
  pub cash : ℤ
  pub fees : ℤ

-- The row of the partition in partition_leases. AcquireLease does not look at its expiry.
pub record LeaseRow : Type 0 where
  pub owner : Uuid
  pub epoch : ℕ

-- The rows of outbox: events.OrderAccepted, as far as the book reads it, and events.CancelRequested.
pub data OutboxRow : Type 0 where
  order_accepted : OrderRow → OutboxRow
  cancel_requested : (order account : Uuid) (symbol : Name) → OutboxRow

pub record Db : Type 0 where
  pub next_seq : Dict ℕ
  pub txns : List Txn
  pub balances : Dict BalanceRow
  pub positions : List PositionRow
  pub orders : Dict OrderRow
  pub reservations : Dict ReservationRow
  pub fills : Dict FillRow
  pub offsets : Dict ℕ
  pub lease : Option LeaseRow
  pub outbox : List OutboxRow

pub data Error : Type 0 where
  no_such_account no_such_order no_reservation : Error
  notional_overflow fee_overflow bigint_overflow : Error
  reservation_check unbalanced lease_lost fill_conflict txn_conflict : Error

pub data Result (A : Type 0) : Type 0 where
  ok : A → Result A
  err : Error → Result A

-- What runs inside a transaction.
abbrev pub Tx : Type 0 → Type 0
Tx A = Db → Result (A × Db)

abbrev pub ⊤ : Type 0
⊤ = Unit

module _ {A : Type 0} where
  abbrev pub pure : A → Tx A
  pure a db = ok (a, db)

  abbrev pub fail : Error → Tx A
  fail e db = err e

  abbrev pub or_fail : Option A → Error → Tx A
  or_fail none e = fail e
  or_fail (some a) e = pure a

abbrev pub bind_result : {A B : Type 0} → Result (A × Db) → (A → Tx B) → Result (B × Db)
bind_result (ok (a, db)) f = f a db
bind_result (err e) f = err e

infixl 5 ◌>>=◌ ◌>>◌
abbrev pub ◌>>=◌ : {A B : Type 0} → Tx A → (A → Tx B) → Tx B
◌>>=◌ m f db = bind_result (m db) f

abbrev pub ◌>>◌ : {A B : Type 0} → Tx A → Tx B → Tx B
m >> k = m >>= λ _. k

abbrev pub gets : {A : Type 0} → (Db → A) → Tx A
gets f db = ok (f db, db)

abbrev pub modify : (Db → Db) → Tx ⊤
modify f db = ok (tt, f db)

-- A value for a bigint column.
abbrev pub bigint : ℤ → Tx ℤ
bigint z = if fits z then pure z else fail bigint_overflow
