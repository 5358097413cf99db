-- ===== src/Book/Tests.antt =====
-- Runs of internal/book/book.go on a small book, and the theorems at it.
use trade_execution_operatin.Common.{
  ℕ, ◌≡◌, refl, Option, none, some, List, [], ◌∷◌, arith, replicate,
}
use trade_execution_operatin.Book.{Side, OrderType, Tif, Order, Fill, Outcome, Book, crosses}
use trade_execution_operatin.Book.Sweep.{trade, trade_best, at_best, round}
use trade_execution_operatin.Book.Submit.{seen, ignored, submit, cancel}
use trade_execution_operatin.Book.Submit.Shape.{IsWell}
use trade_execution_operatin.Book.Submit.Correct.{Submitted, asked, submit_correct}
use trade_execution_operatin.Book.Submit.Cancel.{submit-seen, cancel-IsWell}

abbrev order : ℕ → Side → ℕ → ℕ → Order
order id side price qty = record {
  id = id;
  account = id;
  side = side;
  order_type = OrderType.limit;
  tif = Tif.gtc;
  qty = qty;
  remaining = qty;
  limit_price = price;
  ref_price = 0;
  seq = id;
}

abbrev empty : Book
empty = record {
  symbol = 65 ∷ [];
  venue = 80 ∷ [];
  shard_id = 0;
  collar_bps = 500;
  bids = [];
  asks = [];
  by_id = [];
  arrival = 0;
  book_seq = 0;
  dedup_ring = replicate 4 0;
  dedup_set = [];
  dedup_next = 0;
  dedup_limit = 4;
}

-- Two asks at 101, one at 103, and a bid at 99.
abbrev busy : Book
busy = record empty {
  bids = record { price = 99; orders = order 4 Side.buy 99 7 ∷ [] } ∷ [];
  asks =
      record { price = 101; orders = order 1 Side.sell 101 5 ∷ order 2 Side.sell 101 4 ∷ [] }
      ∷ record { price = 103; orders = order 3 Side.sell 103 6 ∷ [] }
      ∷ [];
  by_id =
      (1, order 1 Side.sell 101 5)
      ∷ (2, order 2 Side.sell 101 4)
      ∷ (3, order 3 Side.sell 103 6)
      ∷ (4, order 4 Side.buy 99 7)
      ∷ [];
  arrival = 4;
}

-- The prices and quantities of the fills, and the remainder.
abbrev prices : List Fill → List (ℕ × ℕ)
prices [] = []
prices (f ∷ fs) = (f.price, f.qty) ∷ prices fs

abbrev summary : Option (Book × Outcome) → List (ℕ × ℕ) × ℕ
summary none = ([], 999)
summary (some (_, out)) = (prices out.fills, out.remaining_qty)

-- A buy of 12 at 103 takes 5 and 4 at 101, then 3 at 103; a buy of 20 leaves 5 resting.
sweep_prices :
    summary (submit busy (order 9 Side.buy 103 12)) ≡ ((101, 5) ∷ (101, 4) ∷ (103, 3) ∷ [], 0)
unfolding submit round at_best trade_best trade crosses
sweep_prices = refl

sweep_all :
    summary (submit busy (order 9 Side.buy 103 20)) ≡ ((101, 5) ∷ (101, 4) ∷ (103, 6) ∷ [], 5)
unfolding submit round at_best trade_best trade crosses
sweep_all = refl

cancel_middle : (cancel busy 2).1 ≡ some 4
unfolding cancel
cancel_middle = refl

busy-IsWell : IsWell busy
busy-IsWell = ground arith

submit_correct_example :
    (b' : Book) × (out : Outcome) × (submit busy (order 9 Side.buy 103 12) ≡ some (b', out))
    × Submitted busy (order 9 Side.buy 103 12) (asked (order 9 Side.buy 103 12)) b' out
unfolding seen
submit_correct_example = submit_correct busy (order 9 Side.buy 103 12) busy-IsWell refl

duplicate_ignored : submit busy (order 2 Side.buy 103 12) ≡ some (busy, ignored)
unfolding seen
duplicate_ignored = submit-seen busy (order 2 Side.buy 103 12) refl

cancel-IsWell_example : IsWell (cancel busy 2).0
cancel-IsWell_example = cancel-IsWell busy 2 busy-IsWell
