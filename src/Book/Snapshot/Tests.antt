-- ===== src/Book/Snapshot/Tests.antt =====
-- A book with two bids and two asks, written and loaded: internal/book/book.go.
use trade_execution_operatin.Common.{◌≡◌, refl, arith, [], ◌∷◌, ℕ, map}
use trade_execution_operatin.Book.{Side, OrderType, Tif, Order, Book}
use trade_execution_operatin.Book.Levels.Ladder.{IsLadder}
use trade_execution_operatin.Book.Snapshot.{snapshot, load_snapshot, insert_by_seq, sort_by_seq}
use trade_execution_operatin.Book.Snapshot.Restored.{load_snapshot-snapshot}

abbrev order : ℕ → Side → ℕ → ℕ → Order
order id side price seq = record {
  id = id;
  account = 1;
  side = side;
  order_type = OrderType.limit;
  tif = Tif.gtc;
  qty = 10;
  remaining = 4;
  limit_price = price;
  ref_price = price;
  seq = seq;
}

abbrev book : Book
book = record {
  symbol = 65 ∷ [];
  venue = 80 ∷ [];
  shard_id = 1;
  collar_bps = 500;
  bids =
      record { price = 99; orders = order 11 Side.buy 99 2 ∷ order 12 Side.buy 99 7 ∷ [] }
      ∷ record { price = 98; orders = order 13 Side.buy 98 1 ∷ [] }
      ∷ [];
  asks = record { price = 101; orders = order 21 Side.sell 101 5 ∷ [] } ∷ [];
  by_id = [];
  arrival = 7;
  book_seq = 3;
  dedup_ring = 0 ∷ 0 ∷ [];
  dedup_set = [];
  dedup_next = 0;
  dedup_limit = 2;
}

-- A book of the same service that is not empty.
abbrev other : Book
other = record book { bids = book.asks; asks = []; arrival = 1; book_seq = 9 }

written : map (λ (o : Order). o.id) (snapshot book).orders ≡ 13 ∷ 11 ∷ 21 ∷ 12 ∷ []
unfolding snapshot sort_by_seq insert_by_seq
written = refl

bids-IsLadder : IsLadder Side.buy book.bids
bids-IsLadder = ground arith

asks-IsLadder : IsLadder Side.sell book.asks
asks-IsLadder = ground arith

load_snapshot-snapshot_example :
    ((load_snapshot other (snapshot book)).bids ≡ book.bids)
    × (((load_snapshot other (snapshot book)).asks ≡ book.asks)
        × (((load_snapshot other (snapshot book)).book_seq ≡ book.book_seq)
            × ((load_snapshot other (snapshot book)).arrival ≡ book.arrival)))
load_snapshot-snapshot_example =
    load_snapshot-snapshot book other bids-IsLadder asks-IsLadder (ground arith) (ground arith)
