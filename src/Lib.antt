-- ===== src/Lib.antt =====
-- A verification of the trading core: the order book, the money arithmetic, and the settlement of
-- fills in the double-entry ledger.
--
-- How the program is put together. A client's order is accepted by the engine (internal/engine): it
-- sizes a reservation, checks it under the account's row lock, and writes the order and an outbox row
-- in one transaction. The relay (internal/outbox) produces outbox rows to a log (internal/eventlog).
-- The matching service (internal/matching) consumes the log, routes each order over its venues' books
-- (internal/book), and produces fill halves and dispositions. The engine consumes these and settles
-- each in one transaction: postings, balances, positions, reservations, the order's status and the
-- consumer's offset. All amounts go through internal/money. Leases (internal/engine/lease.go) keep a
-- replaced process from writing.
--
-- Which file models what:
--   Common           the shared vocabulary: tests, lists (Lists), integers (Int), Go's int64 and
--                    uint64 (Int64), maps as association lists (Dict, NameMap), strings as byte lists
--                    (Names)
--   Money            internal/money/money.go: Notional, NotionalCeil, FeeBps, ApplyBps, SubBps, Add;
--                    Money.Text the String methods, ParseMinor, ParseQty, Shares and FromShares
--   Book             internal/book/book.go: the types, and the crossing rule; Book.Levels the price
--                    levels (rest, Cancel), Book.Sweep the loop of Submit, Book.Submit the operations
--                    Submit, Cancel, Restore, BestBid and BestAsk, Book.Snapshot the operations
--                    Snapshot and LoadSnapshot
--   Matching         internal/matching: router.go (Matching.Route) and onOrder and onCancel of
--                    matching.go (Matching.Handle)
--   EventLog         internal/eventlog: the partitioner of eventlog.go and the log of memlog.go
--   Outbox           internal/outbox/relay.go: PumpOnce and Drain
--   Engine.Position  internal/engine/position.go: average-cost accounting
--   Engine.Db        the rows of migrations/0001_init.sql and 0007_fills_venue.sql, and transactions on
--                    them; Engine.Db.Hoare the reasoning on transactions that succeed
--   Engine.Reservation  sizeReservation of submit.go and settleReservation of outcomes.go
--   Engine.Ledger    lockAccount, writeTxn, bumpSeq and inTx of engine.go, Lease.assert of lease.go,
--                    halfFillLegs of outcomes.go, and the balance trigger of the schema
--   Engine.Orders    the statements on orders of outcomes.go and cancel.go, and releaseIfTerminal
--   Engine.Accept    accept, riskCheck, insertOrder and enqueueAccepted of submit.go, and balances of
--                    engine.go
--   Engine.Lease     AcquireLease, Renew and Release of lease.go, for a partition
--   Engine.Service   AcquireService, Renew and Release of lease.go, for a singleton role
--   Engine.Replay    replay.go: the replay of an account from the ledger row by row, the projection it
--                    is compared with (Engine.Replay.Projected), and the bytes of a snapshot
--                    (Engine.Replay.Format)
--   Engine.Snapshot  snapshot.go: LoadSnapshot, RecoverState, Snapshot and SnapshotAll
--   Engine.Outcomes  applyFillHalf, applyDisposition and applyCancelOutcome of outcomes.go
--
-- How the code is read. Go's int64 is an integer of ℤ in range, and every operation on it wraps
-- (add64, sub64, mul64, quot64); uint64 counters of the book wrap at 2^64 (next_u64). Quantities and
-- prices of the book are natural numbers, since the engine accepts no order with a quantity or limit
-- below one. A UUID is a number, with uuid.Nil as 0, and a string is the list of its bytes. The ids of
-- internal/ids are functions of the fields that they hash, so a fill has no id of its own here. A
-- pointer that byID and a level share is written through in both. sort.Search is modelled by what it
-- finds on a sorted side.
-- A transaction is a function from a database to a result and a database, or to an error, which rolls
-- everything back (Tx). A row lock is the order in which transactions run one after the other. A SQL
-- statement is read as source: its WHERE, its CASE and its ON CONFLICT are conditions of the
-- definitions. A bigint column refuses a value out of the range of int64.
--
-- Fuel. The loop of Submit removes a maker in every round but the last, so that its fuel is the number
-- of resting orders on the opposite side, and two; Book.Sweep.Total shows that it is enough on every
-- sorted side, and Submit returns. The loop of Drain (Outbox) stops at an empty batch: one round more
-- than there are waiting rows is enough. A consumer that fetches until a fetch is empty
-- (EventLog.Reading) needs one fetch more than there are records.
--
-- The order id that uuid.New makes up, and the owner id of a lease, are arguments of the operations
-- that use them.
--
-- Not modelled: timestamps and version columns, foreign keys, metrics and observers, the wire format
-- of messages, and the services around the core (HTTP API, streaming, authentication, identity,
-- market data, market maker, analytics, chaos tests, and the logs in Postgres and Kafka), which do
-- I/O.
pub mod Common
pub mod Money
pub mod Book
pub mod Matching
pub mod Engine
pub mod EventLog
pub mod Outbox
