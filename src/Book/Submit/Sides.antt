-- ===== src/Book/Submit/Sides.antt =====
-- The two sides of a book after the matching loop of Submit and after rest.
use trade_execution_operatin.Common.{ℕ, ◌+◌, ◌≡◌, refl, List}
use trade_execution_operatin.Common.Dict.{Dict, insert}
use trade_execution_operatin.Book.{Side, opposite, Order, Level, Book, side_of, with_side}
use trade_execution_operatin.Book.Levels.{side_qty, insert_order}
use trade_execution_operatin.Book.Levels.Quantity.{side_qty-insert_order}
use trade_execution_operatin.Book.Submit.{rest}

-- The sides of a book after the loop and after a rest.
module _ (b : Book) (ls : List Level) (d : Dict Order) where
  pub replaced :
      (t : Side) (n : ℕ) → side_of t (record (with_side t b ls) { by_id = d; book_seq = n }) ≡ ls
  replaced Side.buy n = refl
  replaced Side.sell n = refl

  pub untouched :
      (t : Side) (n : ℕ)
      → side_of t (record (with_side (opposite t) b ls) { by_id = d; book_seq = n }) ≡ side_of t b
  untouched Side.buy n = refl
  untouched Side.sell n = refl

pub rest-own :
    (b : Book) (o : Order)
    → side_qty (side_of o.side (rest b o)) ≡ side_qty (side_of o.side b) + o.remaining
unfolding rest
rest-own b o = go o.side
  where
    go :
        (t : Side)
        → side_qty (
            side_of t (record (with_side t b (insert_order t o (side_of t b))) {
              by_id = insert o.id o b.by_id;
            }))
          ≡ side_qty (side_of t b) + o.remaining
    go Side.buy = side_qty-insert_order Side.buy o b.bids
    go Side.sell = side_qty-insert_order Side.sell o b.asks

pub rest-opposite :
    (b : Book) (o : Order) → side_of (opposite o.side) (rest b o) ≡ side_of (opposite o.side) b
unfolding rest
rest-opposite b o = go o.side
  where
    go :
        (t : Side)
        → side_of (opposite t) (record (with_side t b (insert_order t o (side_of t b))) {
          by_id = insert o.id o b.by_id;
        })
          ≡ side_of (opposite t) b
    go Side.buy = refl
    go Side.sell = refl

pub rest-book_seq : (b : Book) (o : Order) → (rest b o).book_seq ≡ b.book_seq
unfolding rest
rest-book_seq b o = go o.side
  where
    go : (t : Side) → (with_side t b (insert_order t o (side_of t b))).book_seq ≡ b.book_seq
    go Side.buy = refl
    go Side.sell = refl
