-- ===== src/Engine/Orders/Machine.antt =====
-- The life of an order row in internal/engine: its statuses as a step relation.
use trade_execution_operatin.Common.{
  ◌≡◌, refl, Bool, true, false, Option, arith, Bool-cases, inl, inr,
}
use trade_execution_operatin.Common.Int.{ℤ, pos, ◌+ℤ◌, ◌≤ℤ◌, leb_ℤ}
use trade_execution_operatin.Book.{Name, Disposition}
use trade_execution_operatin.Engine.Db.{filled, OrderRow}
use trade_execution_operatin.Engine.Orders.{
  is_terminal, is_pending, advance_status, dispose_order, cancel_order_row, request_cancel_row,
}

-- The row that a fill leaves (advanceOrderFill).
abbrev pub advance_row : ℤ → ℤ → OrderRow → OrderRow
advance_row qty notional o = record o {
  filled_qty = o.filled_qty +ℤ qty;
  filled_notional = o.filled_notional +ℤ notional;
  status = advance_status o.status (o.filled_qty +ℤ qty) o.qty;
}

-- What may happen to an accepted order, in any order and any number of times.
pub data Step (o : OrderRow) : OrderRow → Type 0 where
  fill : (qty notional : ℤ) → pos 0 ≤ℤ qty → Step o (advance_row qty notional o)
  dispose : (d : Disposition) (reason : Option Name) → Step o (dispose_order d reason o)
  request : Step o (request_cancel_row o)
  verdict : (removed : Bool) (reason : Name) → Step o (cancel_order_row removed reason o)

pub data Reach (s : OrderRow) : OrderRow → Type 0 where
  here : Reach s s
  next : {t u : OrderRow} → Reach s t → Step t u → Reach s u

-- An order that is filled in full says so.
abbrev pub IsHonest : OrderRow → Type 0
IsHonest o = leb_ℤ o.qty o.filled_qty ≡ true → o.status ≡ filled

-- An honest order that is not terminal is not full.
absurd_filled :
    (o : OrderRow) {A : Type 0}
    → IsHonest o
    → leb_ℤ o.qty o.filled_qty ≡ true
    → is_terminal o.status ≡ false
    → A
absurd_filled o i full e = let s = i full in let t : true ≡ false = rw s at e in cc

dispose_lem :
    (d : Disposition) (r : Option Name) (o : OrderRow) → IsHonest o → IsHonest (dispose_order d r o)
unfolding dispose_order
dispose_lem d r o i = elim (Bool-cases (is_terminal o.status)) [
  | inl e ↦ rw e i
  | inr e ↦ elim (Bool-cases (is_pending o.status)) [
    | inl p ↦ rw (e, p) i
    | inr p ↦ rw (e, p) (λ full. absurd_filled o i full e)
  ]
]

request_lem : (o : OrderRow) → IsHonest o → IsHonest (request_cancel_row o)
unfolding request_cancel_row
request_lem o i = elim (Bool-cases (is_terminal o.status)) [
  | inl e ↦ rw e i
  | inr e ↦ elim (Bool-cases (is_pending o.status)) [
    | inl p ↦ rw (e, p) i
    | inr p ↦ rw (e, p) (λ full. absurd_filled o i full e)
  ]
]

verdict_lem : (b : Bool) (r : Name) (o : OrderRow) → IsHonest o → IsHonest (cancel_order_row b r o)
unfolding cancel_order_row
verdict_lem true r o i = elim (Bool-cases (is_terminal o.status)) [
  | inl e ↦ rw e i
  | inr e ↦ rw e (λ full. absurd_filled o i full e)
]
verdict_lem false r o i = elim (Bool-cases (is_pending o.status)) [
  | inl p ↦ rw p (λ full. rw (full) refl)
  | inr p ↦ rw p i
]

Step-IsHonest : {o o' : OrderRow} → Step o o' → IsHonest o → IsHonest o'
unfolding advance_status
Step-IsHonest (fill q n h) i full = ground arith
Step-IsHonest {o} (dispose d r) i full = dispose_lem d r o i full
Step-IsHonest {o} request i full = request_lem o i full
Step-IsHonest {o} (verdict b r) i full = verdict_lem b r o i full

-- Call an order honest when a filled quantity that reaches its quantity implies the status FILLED.
-- Whatever fills (of a quantity that is not negative), dispositions, cancel requests and cancel
-- verdicts arrive at an honest order, in whatever order and however often, it is honest afterwards.
pub Reach-IsHonest : {s o : OrderRow} → Reach s o → IsHonest s → IsHonest o
Reach-IsHonest here i = i
Reach-IsHonest (next r t) i = Step-IsHonest t (Reach-IsHonest r i)
