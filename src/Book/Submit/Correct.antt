-- ===== src/Book/Submit/Correct.antt =====
-- Submit of internal/book/book.go on a well-formed book: it returns, and what it has done.
use mathlib.Core.Path.{subst}
use trade_execution_operatin.Common.{
  ℕ, ◌+◌, ◌%◌, ◌≡◌, refl, sym, ◌∙◌, true, false, some, ◌∷◌, ◌==◌, if◌then◌else◌, arith, All,
  All-map, Bool-cases, inl, inr, ap, get_or, set,
}
use trade_execution_operatin.Common.Dict.{contains, remove}
use trade_execution_operatin.Book.{
  Side, opposite, OrderType, Tif, Order, Fill, Outcome, Disposition, Book, crosses, side_of,
  next_u64,
}
use trade_execution_operatin.Book.Levels.{side_qty}
use trade_execution_operatin.Book.Levels.Ladder.{Prices}
use trade_execution_operatin.Book.Sweep.{Sweep, Round, round, sweep, fuel_of}
use trade_execution_operatin.Book.Sweep.Loop.{Traded-Prices, sweep_inv}
use trade_execution_operatin.Book.Sweep.Total.{sweep_total}
use trade_execution_operatin.Book.Sweep.Effect.{
  Effect, IsFillOf, Numbered, BestFirst, fills_qty, sweep-Effect,
}
use trade_execution_operatin.Book.Submit.{
  seen, remember, rest, can_rest, admit, start, swept, conclude, match_order, submit,
}
use trade_execution_operatin.Book.Submit.Sides.{
  replaced, untouched, rest-own, rest-opposite, rest-book_seq,
}
use trade_execution_operatin.Book.Submit.Shape.{
  Apart, IsWell, rest-IsWell, with_side-IsWell, side_of-IsLadder, round-Apart,
}

-- The book and the order with which the loop starts, when the id is new.
abbrev fresh_book : Book → Order → Book
fresh_book b o =
    let old = get_or b.dedup_ring b.dedup_next 0 in
    record b {
      arrival = next_u64 b.arrival;
      dedup_ring = set b.dedup_ring b.dedup_next o.id;
      dedup_set = o.id ∷ (if old == 0 then b.dedup_set else remove old b.dedup_set);
      dedup_next = (b.dedup_next + 1) % b.dedup_limit;
    }

abbrev taker : Book → Order → Order
taker b o = record o {
  seq = next_u64 b.arrival;
  remaining = (if o.remaining == 0 then o.qty else o.remaining);
}

admit-fresh : (b : Book) (o : Order) → seen b o.id ≡ false → admit b o ≡ (fresh_book b o, taker b o)
unfolding seen remember
admit-fresh b o h = let new : contains o.id b.dedup_set ≡ false = ground arith in rw new refl

-- The quantity that an outcome leaves resting.
abbrev pub rested_of : Disposition → ℕ → ℕ
rested_of Disposition.rested n = n
rested_of Disposition.cancelled n = 0
rested_of Disposition.complete n = 0

abbrev pub rested_qty : Outcome → ℕ
rested_qty out = rested_of out.disposition out.remaining_qty

-- What a Submit of a new order has done to the book.
pub record Submitted (b : Book) (o : Order) (asked : ℕ) (b' : Book) (out : Outcome) : Type 0 where
  pub well : IsWell b'
  pub quantity : fills_qty out.fills + out.remaining_qty ≡ asked
  pub makers :
      fills_qty out.fills + side_qty (side_of (opposite o.side) b')
      ≡ side_qty (side_of (opposite o.side) b)
  pub own : side_qty (side_of o.side b') ≡ side_qty (side_of o.side b) + rested_qty out
  pub each : All (IsFillOf b o) out.fills
  pub numbered : Numbered b.book_seq out.fills b'.book_seq
  pub best_first : BestFirst (opposite o.side) out.fills

can_rest-limit : (t : OrderType) (f : Tif) → can_rest t f ≡ true → t ≡ OrderType.limit
can_rest-limit OrderType.market f h = cc
can_rest-limit OrderType.limit f h = refl

-- The facts about the end of the loop that the three ways to conclude share.
module _ (b : Book) (o : Order) (s : Sweep) (w : IsWell b)
    (eff : Effect b o (opposite o.side) (start b o) s) (ends : round b o s ≡ Round.done)
    (sub : (P : ℕ → Type 0) → Prices P (side_of (opposite o.side) b) → Prices P s.levels) where
  swept-IsWell : IsWell (swept b o s)
  swept-IsWell =
      let r = with_side-IsWell (opposite o.side) b s.levels w eff.ladder sub in
      record { bids = r.bids; asks = r.asks; uncrossed = r.uncrossed }

  rested-IsWell :
      (s.remaining == 0) ≡ false
      → can_rest o.order_type o.tif ≡ true
      → IsWell (rest (swept b o s) (record o { remaining = s.remaining }))
  rested-IsWell more k =
      let limit = can_rest-limit o.order_type o.tif k in
      rest-IsWell (swept b o s) (record o { remaining = s.remaining }) swept-IsWell
        (record { on_side = refl; at_price = refl; is_limit = limit; open_qty = ground arith })
        (subst (Prices (Apart o.side o.limit_price))
          (sym (replaced b s.levels s.by_id (opposite o.side) s.book_seq))
          (round-Apart b o s ends more limit eff.ladder))

  -- The quantities after the loop, whichever way the order ends.
  swept-makers :
      fills_qty s.fills + side_qty (side_of (opposite o.side) (swept b o s))
      ≡ side_qty (side_of (opposite o.side) b)
  swept-makers = rw (replaced b s.levels s.by_id (opposite o.side) s.book_seq) eff.maker_side

  swept-own : side_of o.side (swept b o s) ≡ side_of o.side b
  swept-own = untouched b s.levels s.by_id o.side s.book_seq

  abbrev Done : Book × Outcome → Type 0
  Done (b', out) = Submitted b o o.remaining b' out

  conclude_complete : (s.remaining == 0) ≡ true → Done (conclude b o s)
  unfolding conclude
  conclude_complete used =
      let nothing : s.remaining ≡ 0 = ground arith in
      rw used (record {
        well = swept-IsWell;
        quantity = eff.taker_side;
        makers = swept-makers;
        own = rw swept-own (omega arith);
        each = eff.each;
        numbered = eff.numbered;
        best_first = eff.best_first;
      })

  conclude-rested :
      (s.remaining == 0) ≡ false → can_rest o.order_type o.tif ≡ true → Done (conclude b o s)
  unfolding conclude
  conclude-rested more k =
      let o' = record o { remaining = s.remaining } in
      rw (more, k)
        (record {
          well = rested-IsWell more k;
          quantity = eff.taker_side;
          makers = rw (rest-opposite (swept b o s) o') swept-makers;
          own = rw (rest-own (swept b o s) o', swept-own) refl;
          each = eff.each;
          numbered = rw (rest-book_seq (swept b o s) o') eff.numbered;
          best_first = eff.best_first;
        })

  conclude-cancelled :
      (s.remaining == 0) ≡ false → can_rest o.order_type o.tif ≡ false → Done (conclude b o s)
  unfolding conclude
  conclude-cancelled more k =
      rw (more, k)
        (record {
          well = swept-IsWell;
          quantity = eff.taker_side;
          makers = swept-makers;
          own = rw swept-own (omega arith);
          each = eff.each;
          numbered = eff.numbered;
          best_first = eff.best_first;
        })

-- The loop adds no price to the side that it takes from.
sweep-Prices :
    (P : ℕ → Type 0) (f : ℕ) (b : Book) (o : Order) (s s' : Sweep)
    → sweep f b o s ≡ some s'
    → Prices P s.levels
    → Prices P s'.levels
sweep-Prices P f b o s s' e h =
    (sweep_inv b o (λ t. Prices P t.levels) (Traded-Prices P b o) f s s' e h).0

conclude-Submitted :
    (b : Book) (o : Order) (f : ℕ) (s : Sweep)
    → IsWell b
    → sweep f b o (start b o) ≡ some s
    → let (b', out) = conclude b o s in Submitted b o o.remaining b' out
conclude-Submitted b o f s w e =
    let (eff, ends) =
      sweep-Effect b o (opposite o.side) f (start b o) s e refl
        (side_of-IsLadder (opposite o.side) b w) in
    let sub = λ (P : ℕ → Type 0). sweep-Prices P f b o (start b o) s e in
    elim (Bool-cases (s.remaining == 0)) [
      | inl used ↦ conclude_complete b o s w eff ends sub used
      | inr more ↦ elim (Bool-cases (can_rest o.order_type o.tif)) [
        | inl k ↦ conclude-rested b o s w eff ends sub more k
        | inr k ↦ conclude-cancelled b o s w eff ends sub more k
      ]
    ]

submit-fresh :
    (b : Book) (o : Order)
    → seen b o.id ≡ false
    → submit b o ≡ match_order (fresh_book b o) (taker b o)
unfolding submit
submit-fresh b o h = rw h (ap (λ r. match_order r.0 r.1) (admit-fresh b o h))

match_order-some :
    (b : Book) (o : Order) (s : Sweep)
    → sweep (fuel_of (start b o)) b o (start b o) ≡ some s
    → match_order b o ≡ some (conclude b o s)
unfolding match_order
match_order-some b o s e = rw (e, match_order)

side_of-fresh : (b : Book) (o : Order) (t : Side) → side_of t (fresh_book b o) ≡ side_of t b
side_of-fresh b o Side.buy = refl
side_of-fresh b o Side.sell = refl

IsFillOf-taker :
    (b : Book) (o : Order) (f : Fill) → IsFillOf (fresh_book b o) (taker b o) f → IsFillOf b o f
unfolding crosses
IsFillOf-taker b o f h = record {
  positive = h.positive;
  inside = h.inside;
  taker = h.taker;
  account = h.account;
  side = h.side;
}

-- The arrival number and the dedup ring are no part of what Submit promises.
Submitted-taker :
    (b : Book) (o : Order) (n : ℕ) (b' : Book) (out : Outcome)
    → Submitted (fresh_book b o) (taker b o) n b' out
    → Submitted b o n b' out
Submitted-taker b o n b' out h = record {
  well = h.well;
  quantity = h.quantity;
  makers = rw (side_of-fresh b o (opposite o.side)) at h.makers;
  own = rw (side_of-fresh b o o.side) at h.own;
  each = All-map out.fills (IsFillOf-taker b o) h.each;
  numbered = h.numbered;
  best_first = h.best_first;
}

fresh_book-IsWell : (b : Book) (o : Order) → IsWell b → IsWell (fresh_book b o)
fresh_book-IsWell b o w = record { bids = w.bids; asks = w.asks; uncrossed = w.uncrossed }

-- The quantity that Submit works with.
abbrev pub asked : Order → ℕ
asked o = if o.remaining == 0 then o.qty else o.remaining

-- On a well-formed book the Submit of an order whose id is new returns, leaves a well-formed book
-- (sorted sides, no empty level, best bid below best ask), splits the order's quantity exactly into
-- fills and remainder, takes from the opposite side exactly what it fills, adds to its own side exactly
-- what it rests, and lists the fills from the best price on, inside the order's limit or collar and
-- numbered consecutively.
pub submit_correct :
    (b : Book) (o : Order)
    → IsWell b
    → seen b o.id ≡ false
    → (b' : Book) × (out : Outcome) × (submit b o ≡ some (b', out)) × Submitted b o (asked o) b' out
submit_correct b o w h =
    let fb = fresh_book b o in
    let tk = taker b o in
    let w' = fresh_book-IsWell b o w in
    let (s, e) =
      sweep_total (opposite o.side) fb tk (start fb tk)
        (side_of-IsLadder (opposite o.side) fb w') in
    let (b', out) = conclude fb tk s in
    (
      b',
      out,
      submit-fresh b o h ∙ match_order-some fb tk s e,
      Submitted-taker b o (asked o) b' out
          (conclude-Submitted fb tk (fuel_of (start fb tk)) s w' e),
    )
