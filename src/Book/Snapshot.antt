-- ===== src/Book/Snapshot.antt =====
-- Snapshot and LoadSnapshot of internal/book/book.go.
-- sort.Slice by Seq is an insertion sort: the arrival numbers of resting orders are distinct.
pub mod Queues
pub mod Priority
pub mod Sides
pub mod Restored
mod Tests
use trade_execution_operatin.Common.{
  ℕ, Bool, List, [], ◌∷◌, ◌++◌, ltb, ◌==◌, if◌then◌else◌, replicate,
}
use trade_execution_operatin.Book.{Order, Level, Book}
use trade_execution_operatin.Book.Submit.{remember, rest}

-- type Snapshot
pub record BookSnapshot : Type 0 where
  pub book_seq : ℕ
  pub arrival : ℕ
  pub orders : List Order

unfoldable pub insert_by_seq : Order → List Order → List Order
insert_by_seq o [] = o ∷ []
insert_by_seq o (u ∷ us) =
    let later = insert_by_seq o us in if ltb o.seq u.seq then o ∷ u ∷ us else u ∷ later

unfoldable pub sort_by_seq : List Order → List Order
sort_by_seq [] = []
sort_by_seq (o ∷ os) = insert_by_seq o (sort_by_seq os)

-- The orders of a side, level by level.
abbrev pub level_orders : List Level → List Order
level_orders [] = []
level_orders (lv ∷ ls) = lv.orders ++ level_orders ls

-- Snapshot
unfoldable pub snapshot : Book → BookSnapshot
snapshot b = record {
  book_seq = b.book_seq;
  arrival = b.arrival;
  orders = sort_by_seq (level_orders b.bids ++ level_orders b.asks);
}

-- The assignments before the loop of LoadSnapshot.
abbrev pub cleared : Book → Book
cleared b = record b {
  bids = [];
  asks = [];
  by_id = [];
  dedup_ring = replicate b.dedup_limit 0;
  dedup_set = [];
  dedup_next = 0;
}

-- The loop.
unfoldable pub load_orders : Book → List Order → Book
load_orders b [] = b
load_orders b (o ∷ os) = load_orders (if o.remaining == 0 then b else rest (remember b o.id) o) os

-- LoadSnapshot
unfoldable pub load_snapshot : Book → BookSnapshot → Book
load_snapshot b s = record (load_orders (cleared b) (sort_by_seq s.orders)) {
  book_seq = s.book_seq;
  arrival = s.arrival;
}
