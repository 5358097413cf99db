-- ===== src/Book/Submit/Shape.antt =====
-- The invariant of a book: both sides sorted, and the best bid below the best ask. Resting an order
-- that no longer crosses keeps it.
use trade_execution_operatin.Common.{
  ℕ, ◌<◌, ◌≡◌, refl, sym, false, List, [], ◌∷◌, ◌==◌, ◌∙◌, arith, Bool-cases, inl, inr,
}
use trade_execution_operatin.Common.Dict.{Dict, insert}
use trade_execution_operatin.Book.{
  Side, opposite, OrderType, Order, Level, Book, crosses, crosses_limit, side_of, with_side,
}
use trade_execution_operatin.Book.Levels.{insert_order}
use trade_execution_operatin.Book.Levels.Ladder.{
  IsLadder, IsResting, Prices, Prices-map, Prices-zip, Ahead, insert_order-Prices,
  insert_order-IsLadder,
}
use trade_execution_operatin.Book.Sweep.{Sweep, Round, trade_best, at_best, round}
use trade_execution_operatin.Book.Submit.{rest}

-- An order at price `p` on the side does not cross the opposite price `q`.
abbrev pub Apart : Side → ℕ → ℕ → Type 0
Apart Side.buy p q = p < q
Apart Side.sell p q = q < p

abbrev pub Uncrossed : List Level → List Level → Type 0
Uncrossed bids asks = Prices (λ p. Prices (λ q. p < q) asks) bids

pub record IsWell (b : Book) : Type 0 where
  pub bids : IsLadder Side.buy b.bids
  pub asks : IsLadder Side.sell b.asks
  pub uncrossed : Uncrossed b.bids b.asks

Apart-Ahead : (s : Side) (p q r : ℕ) → Apart s p q → Ahead (opposite s) q r → Apart s p r
Apart-Ahead Side.buy p q r h k = omega arith
Apart-Ahead Side.sell p q r h k = omega arith

Apart-of_limit : (s : Side) (bound p : ℕ) → crosses_limit s bound p ≡ false → Apart s bound p
unfolding crosses_limit
Apart-of_limit Side.buy bound p h = ground arith
Apart-of_limit Side.sell bound p h = ground arith

crosses-limit :
    (c : ℕ) (o : Order) (p : ℕ)
    → o.order_type ≡ OrderType.limit
    → crosses c o p ≡ crosses_limit o.side o.limit_price p
unfolding crosses
crosses-limit c o p e = ground arith

trade_best-ne-done :
    (b : Book) (o : Order) (s : Sweep) (p : ℕ) (os : List Order) (ls : List Level)
    → trade_best b o s p os ls ≡ Round.done
    → ⊥
unfolding trade_best
trade_best-ne-done b o s p [] ls e = cc
trade_best-ne-done b o s p (m ∷ os) ls e = cc

-- Where the loop stopped with quantity left, a limit order is apart from the whole opposite side.
at_best-Apart :
    (b : Book) (o : Order) (s : Sweep) (ls : List Level)
    → at_best b o s ls ≡ Round.done
    → o.order_type ≡ OrderType.limit
    → IsLadder (opposite o.side) ls
    → Prices (Apart o.side o.limit_price) ls
unfolding at_best
at_best-Apart b o s [] e k h = tt
at_best-Apart b o s (lv ∷ ls) e k h = elim (Bool-cases (crosses b.collar_bps o lv.price)) [
  | inl on ↦ absurd (ground (arith, trade_best-ne-done b o s lv.price lv.orders ls))
  | inr off ↦
      let first =
        Apart-of_limit o.side o.limit_price lv.price
          (sym (crosses-limit b.collar_bps o lv.price k) ∙ off) in
      (first, Prices-map ls (λ q. Apart-Ahead o.side o.limit_price lv.price q first) h.2)
]

pub round-Apart :
    (b : Book) (o : Order) (s : Sweep)
    → round b o s ≡ Round.done
    → (s.remaining == 0) ≡ false
    → o.order_type ≡ OrderType.limit
    → IsLadder (opposite o.side) s.levels
    → Prices (Apart o.side o.limit_price) s.levels
unfolding round
round-Apart b o s e open_qty k h = at_best-Apart b o s s.levels (rw open_qty at e) k h

-- Resting an order that is apart from the other side keeps the book well formed.
rest-IsWell_side :
    (s : Side) (b : Book) (o : Order)
    → o.side ≡ s
    → IsWell b
    → IsResting s o.limit_price o
    → Prices (Apart s o.limit_price) (side_of (opposite s) b)
    → IsWell (with_side s b (insert_order s o (side_of s b)))
rest-IsWell_side Side.buy b o e w r a = record {
  bids = insert_order-IsLadder Side.buy o b.bids r w.bids;
  asks = w.asks;
  uncrossed = insert_order-Prices (λ p. Prices (λ q. p < q) b.asks) Side.buy o b.bids a w.uncrossed;
}
rest-IsWell_side Side.sell b o e w r a = record {
  bids = w.bids;
  asks = insert_order-IsLadder Side.sell o b.asks r w.asks;
  uncrossed =
      Prices-zip b.bids (λ p h k. insert_order-Prices (λ q. p < q) Side.sell o b.asks k h)
        w.uncrossed a;
}

IsWell-by_id : (b : Book) (d : Dict Order) → IsWell b → IsWell (record b { by_id = d })
IsWell-by_id b d w = record { bids = w.bids; asks = w.asks; uncrossed = w.uncrossed }

pub rest-IsWell :
    (b : Book) (o : Order)
    → IsWell b
    → IsResting o.side o.limit_price o
    → Prices (Apart o.side o.limit_price) (side_of (opposite o.side) b)
    → IsWell (rest b o)
unfolding rest
rest-IsWell b o w r a =
    IsWell-by_id (with_side o.side b (insert_order o.side o (side_of o.side b)))
      (insert o.id o b.by_id) (rest-IsWell_side o.side b o refl w r a)

-- Replacing a side by a sorted one with no new price keeps the book well formed.
pub with_side-IsWell :
    (s : Side) (b : Book) (ls : List Level)
    → IsWell b
    → IsLadder s ls
    → ((P : ℕ → Type 0) → Prices P (side_of s b) → Prices P ls)
    → IsWell (with_side s b ls)
with_side-IsWell Side.buy b ls w h sub = record {
  bids = h;
  asks = w.asks;
  uncrossed = sub (λ p. Prices (λ q. p < q) b.asks) w.uncrossed;
}
with_side-IsWell Side.sell b ls w h sub = record {
  bids = w.bids;
  asks = h;
  uncrossed = Prices-map b.bids (λ p. sub (λ q. p < q)) w.uncrossed;
}

pub side_of-IsLadder : (s : Side) (b : Book) → IsWell b → IsLadder s (side_of s b)
side_of-IsLadder Side.buy b w = w.bids
side_of-IsLadder Side.sell b w = w.asks
