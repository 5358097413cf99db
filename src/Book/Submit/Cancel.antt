-- ===== src/Book/Submit/Cancel.antt =====
-- Cancel and Restore of internal/book/book.go, and duplicates.
use trade_execution_operatin.Common.{◌≡◌, true, some, Option-cases, inl, inr}
use trade_execution_operatin.Common.Dict.{lookup}
use trade_execution_operatin.Book.{Uuid, Order, Book, side_of}
use trade_execution_operatin.Book.Levels.{cancel_order}
use trade_execution_operatin.Book.Levels.Cancel.{cancel_order-IsLadder, cancel_order-Prices}
use trade_execution_operatin.Book.Submit.{seen, ignored, submit, cancel, cancel_found}
use trade_execution_operatin.Book.Submit.Shape.{IsWell, with_side-IsWell, side_of-IsLadder}

-- A Submit of an id that the book has seen changes nothing and reports the duplicate.
pub submit-seen : (b : Book) (o : Order) → seen b o.id ≡ true → submit b o ≡ some (b, ignored)
unfolding submit
submit-seen b o h = rw h

cancel_found-IsWell : (b : Book) (id : Uuid) (o : Order) → IsWell b → IsWell (cancel_found b id o).0
unfolding cancel_found
cancel_found-IsWell b id o w =
    elim (Option-cases (cancel_order o.limit_price id (side_of o.side b))) [
      | inl absent ↦ rw (absent, cancel_found) w
      | inr (ls, found) ↦
          let k =
            with_side-IsWell o.side b ls w
              (cancel_order-IsLadder o.limit_price id o.side (side_of o.side b) ls found
                (side_of-IsLadder o.side b w))
              (λ P. cancel_order-Prices o.limit_price id P (side_of o.side b) ls found) in
          rw (found, cancel_found)
            (record { bids = k.bids; asks = k.asks; uncrossed = k.uncrossed })
    ]

-- Cancel keeps the book well formed, whether or not it finds the order: both sides stay sorted without
-- empty levels, and the best bid stays below the best ask.
pub cancel-IsWell : (b : Book) (id : Uuid) → IsWell b → IsWell (cancel b id).0
unfolding cancel
cancel-IsWell b id w = elim (Option-cases (lookup id b.by_id)) [
  | inl absent ↦ rw (absent, cancel) w
  | inr (o, found) ↦ rw (found, cancel) (cancel_found-IsWell b id o w)
]
