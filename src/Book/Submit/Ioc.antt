-- ===== src/Book/Submit/Ioc.antt =====
-- An order that may not rest (IOC, or market) in Submit of internal/book/book.go.
use mathlib.Core.Path.{subst}
use trade_execution_operatin.Common.{
  ◌≡◌, refl, sym, ap, ◌∙◌, false, Option, some, ◌==◌, arith, Bool-cases, Option-cases, inl, inr,
}
use trade_execution_operatin.Book.{Side, Order, Outcome, Book, side_of}
use trade_execution_operatin.Book.Sweep.{Sweep, sweep, fuel_of}
use trade_execution_operatin.Book.Submit.{
  seen, remember, admit, start, swept, can_rest, conclude, match_order, ignored, submit,
}
use trade_execution_operatin.Common.{none-ne-some}

swept_side :
    (side : Side) (b : Book) (o : Order) (s : Sweep)
    → o.side ≡ side
    → side_of side (swept b o s) ≡ side_of side b
swept_side Side.buy b o s e = rw e refl
swept_side Side.sell b o s e = rw e refl

conclude-own :
    (b : Book) (o : Order) (s : Sweep)
    → can_rest o.order_type o.tif ≡ false
    → side_of o.side (conclude b o s).0 ≡ side_of o.side b
unfolding conclude
conclude-own b o s h = elim (Bool-cases (s.remaining == 0)) [
  | inl full ↦ rw full (swept_side o.side b o s refl)
  | inr part ↦ rw (part, h) (swept_side o.side b o s refl)
]

match_order-own :
    (b : Book) (o : Order) (b' : Book) (out : Outcome)
    → can_rest o.order_type o.tif ≡ false
    → match_order b o ≡ some (b', out)
    → side_of o.side b' ≡ side_of o.side b
unfolding match_order
match_order-own b o b' out h e = elim (Option-cases (sweep (fuel_of (start b o)) b o (start b o))) [
  | inl stuck ↦ absurd (none-ne-some (rw (stuck, match_order) at e))
  | inr (s, done) ↦
      let r : some (conclude b o s) ≡ some (b', out) = rw (done, match_order) at e in
      let same : conclude b o s ≡ (b', out) = cc in
      subst (λ (x : Book × Outcome). side_of o.side x.0 ≡ side_of o.side b) same
        (conclude-own b o s h)
]

remember-side : (side : Side) (b : Book) (o : Order) → side_of side (admit b o).0 ≡ side_of side b
unfolding remember
remember-side Side.buy b o = ground arith
remember-side Side.sell b o = ground arith

-- It leaves its own side of the book as it was.
pub submit-own :
    (b : Book) (o : Order) (b' : Book) (out : Outcome)
    → can_rest o.order_type o.tif ≡ false
    → submit b o ≡ some (b', out)
    → side_of o.side b' ≡ side_of o.side b
unfolding submit
submit-own b o b' out h e = elim (Bool-cases (seen b o.id)) [
  | inl known ↦
      let r : ◌≡◌ {A = Option (Book × Outcome)} (some (b, ignored)) (some (b', out)) =
        rw known at e in
      let same : b ≡ b' = cc in ap (side_of o.side) (sym same)
  | inr new ↦
      let r : match_order (admit b o).0 (admit b o).1 ≡ some (b', out) = rw new at e in
      match_order-own (admit b o).0 (admit b o).1 b' out h r ∙ remember-side o.side b o
]
