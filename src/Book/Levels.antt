-- ===== src/Book/Levels.antt =====
-- The price levels of one side of internal/book/book.go: resting an order and removing one.
pub mod Ladder
pub mod Cancel
pub mod Quantity
use trade_execution_operatin.Common.{
  ℕ, ◌+◌, Bool, true, false, Option, none, some, List, [], ◌∷◌, ◌++◌, leb, ◌==◌, if◌then◌else◌,
}
use trade_execution_operatin.Book.{Uuid, Side, Order, Level}

-- The predicate that rest hands to sort.Search: this level is not ahead of the price.
abbrev pub at_or_behind : Side → ℕ → ℕ → Bool
at_or_behind Side.buy level_price price = leb level_price price
at_or_behind Side.sell level_price price = leb price level_price

-- The level list after rest: the first level at or behind the price is found (sort.Search on a
-- sorted side), and the order joins its queue, or opens a new level before it.
unfoldable pub insert_order : Side → Order → List Level → List Level
insert_order s o [] = record { price = o.limit_price; orders = o ∷ [] } ∷ []
insert_order s o (lv ∷ ls) =
    if at_or_behind s lv.price o.limit_price
    then (if lv.price == o.limit_price
        then record lv { orders = lv.orders ++ o ∷ [] } ∷ ls
        else record { price = o.limit_price; orders = o ∷ [] } ∷ lv ∷ ls)
    else lv ∷ insert_order s o ls

-- The inner loop of Cancel: the queue without the first order of that id, if there is one.
unfoldable pub remove_order : Uuid → List Order → Option (List Order)
remove_order id [] = none
remove_order id (o ∷ os) =
    let rest : Option (List Order) = elim (remove_order id os) [
      | none ↦ none
      | some os' ↦ some (o ∷ os')
    ] in
    if o.id == id then some os else rest

-- A level whose queue is empty leaves the side.
abbrev pub keep_level : ℕ → List Order → List Level → List Level
keep_level price [] ls = ls
keep_level price (o ∷ os) ls = record { price = price; orders = o ∷ os } ∷ ls

-- The outer loop of Cancel, over the levels at the order's price.
unfoldable pub cancel_order : ℕ → Uuid → List Level → Option (List Level)
unfolding remove_order
cancel_order price id [] = none
cancel_order price id (lv ∷ ls) =
    let later : Option (List Level) = elim (cancel_order price id ls) [
      | none ↦ none
      | some ls' ↦ some (lv ∷ ls')
    ] in
    if lv.price == price
    then elim (remove_order id lv.orders) [
      | none ↦ later
      | some os ↦ some (keep_level lv.price os ls)
    ]
    else later

-- The quantity resting at a level, and on a side.
abbrev pub queue_qty : List Order → ℕ
queue_qty [] = 0
queue_qty (o ∷ os) = o.remaining + queue_qty os

abbrev pub side_qty : List Level → ℕ
side_qty [] = 0
side_qty (lv ∷ ls) = queue_qty lv.orders + side_qty ls
