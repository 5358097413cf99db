-- ===== src/Book/Levels/Quantity.antt =====
-- The quantity of a side when an order rests on it.
use trade_execution_operatin.Common.{◌+◌, ◌≡◌, List, [], ◌∷◌, ◌++◌, arith}
use trade_execution_operatin.Book.{Side, Order, Level}
use trade_execution_operatin.Book.Levels.{insert_order, queue_qty, side_qty}

queue_qty-snoc :
    (os : List Order) (o : Order) → queue_qty (os ++ o ∷ []) ≡ queue_qty os + o.remaining
queue_qty-snoc [] o = omega arith
queue_qty-snoc (p ∷ os) o = omega (arith, queue_qty-snoc os o)

-- Resting an order adds exactly its remaining quantity.
pub side_qty-insert_order :
    (s : Side) (o : Order) (ls : List Level)
    → side_qty (insert_order s o ls) ≡ side_qty ls + o.remaining
unfolding insert_order
side_qty-insert_order s o [] = omega arith
side_qty-insert_order Side.buy o (lv ∷ ls) =
    ground (arith, queue_qty-snoc lv.orders o, side_qty-insert_order Side.buy o ls)
side_qty-insert_order Side.sell o (lv ∷ ls) =
    ground (arith, queue_qty-snoc lv.orders o, side_qty-insert_order Side.sell o ls)
