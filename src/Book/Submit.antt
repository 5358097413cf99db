-- ===== src/Book/Submit.antt =====
-- The operations of internal/book/book.go: Submit, Cancel, Restore, and the queries.
pub mod Shape
pub mod Sides
pub mod Correct
pub mod Cancel
pub mod Dedup
pub mod Again
pub mod Ring
pub mod Window
pub mod Later
pub mod Ioc
use trade_execution_operatin.Common.{
  ℕ, ◌+◌, ◌%◌, Bool, true, false, ◌||◌, Option, none, some, List, [], ◌∷◌, ltb, ◌==◌, if◌then◌else◌,
  get_or, set,
}
use trade_execution_operatin.Common.Dict.{Dict, lookup, insert, erase, contains, remove}
use trade_execution_operatin.Book.{
  Uuid, Side, opposite, OrderType, Tif, Order, Outcome, Disposition, Reason, Level, Book, next_u64,
  side_of, with_side,
}
use trade_execution_operatin.Book.Levels.{insert_order, cancel_order, queue_qty}
use trade_execution_operatin.Book.Sweep.{Sweep, sweep, fuel_of}

abbrev pub is_some {ℓ} : {A : Type ℓ} → Option A → Bool
is_some none = false
is_some (some a) = true

-- seen
unfoldable pub seen : Book → Uuid → Bool
seen b id = is_some (lookup id b.by_id) || contains id b.dedup_set

-- remember: the ring drops its oldest id when it is full.
unfoldable pub remember : Book → Uuid → Book
remember b id =
    let old = get_or b.dedup_ring b.dedup_next 0 in
    let kept = if old == 0 then b.dedup_set else remove old b.dedup_set in
    if contains id b.dedup_set then b else record b {
      dedup_ring = set b.dedup_ring b.dedup_next id;
      dedup_set = id ∷ kept;
      dedup_next = (b.dedup_next + 1) % b.dedup_limit;
    }

-- rest
unfoldable pub rest : Book → Order → Book
unfolding insert_order
rest b o = record (with_side o.side b (insert_order o.side o (side_of o.side b))) {
  by_id = insert o.id o b.by_id;
}

-- cancelReason, given what is left on the opposite side.
unfoldable pub cancel_reason : OrderType → List Level → Reason
cancel_reason OrderType.limit ls = Reason.ioc_remainder
cancel_reason OrderType.market [] = Reason.book_exhausted
cancel_reason OrderType.market (lv ∷ ls) = Reason.collar_breach

-- The lines of Submit before the loop: the order's arrival number and its remaining quantity.
abbrev pub admit : Book → Order → Book × Order
admit b o =
    let b' = remember b o.id in
    let arrival = next_u64 b'.arrival in
    (
      record b' { arrival = arrival },
      record o { seq = arrival; remaining = (if o.remaining == 0 then o.qty else o.remaining) },
    )

abbrev pub start : Book → Order → Sweep
start b o = record {
  remaining = o.remaining;
  levels = side_of (opposite o.side) b;
  by_id = b.by_id;
  book_seq = b.book_seq;
  fills = [];
}

-- The book once the loop has ended.
abbrev pub swept : Book → Order → Sweep → Book
swept b o s = record (with_side (opposite o.side) b s.levels) {
  by_id = s.by_id;
  book_seq = s.book_seq;
}

abbrev pub can_rest : OrderType → Tif → Bool
can_rest OrderType.limit Tif.gtc = true
can_rest _ _ = false

-- The switch of Submit.
unfoldable pub conclude : Book → Order → Sweep → Book × Outcome
unfolding rest cancel_reason
conclude b o s =
    let b' = swept b o s in
    let out = λ (d : Disposition) (r : Reason).
      let res : Outcome = record {
        fills = s.fills;
        disposition = d;
        remaining_qty = s.remaining;
        cancel_reason = r;
        duplicate_ignored = false;
      } in
      res in
    if s.remaining == 0
    then (b', out Disposition.complete Reason.no_reason)
    else if can_rest o.order_type o.tif
    then (rest b' (record o { remaining = s.remaining }), out Disposition.rested Reason.no_reason)
    else (b', out Disposition.cancelled (cancel_reason o.order_type s.levels))

-- The loop and the switch of Submit.
unfoldable pub match_order : Book → Order → Option (Book × Outcome)
unfolding sweep conclude
match_order b o = elim (sweep (fuel_of (start b o)) b o (start b o)) [
  | none ↦ none
  | some s ↦ some (conclude b o s)
]

abbrev pub ignored : Outcome
ignored = record {
  fills = [];
  disposition = Disposition.cancelled;
  remaining_qty = 0;
  cancel_reason = Reason.duplicate;
  duplicate_ignored = true;
}

-- Submit. `none`: the loop panicked (never, on a well-formed book).
unfoldable pub submit : Book → Order → Option (Book × Outcome)
unfolding seen remember match_order
submit b o =
    let (b', o') = admit b o in if seen b o.id then some (b, ignored) else match_order b' o'

-- Cancel: `none` for (0, false).
cancel_found : Book → Uuid → Order → Book × Option ℕ
unfolding cancel_order
cancel_found b id o = elim (cancel_order o.limit_price id (side_of o.side b)) [
  | none ↦ (b, none)
  | some ls ↦ (record (with_side o.side b ls) { by_id = erase id b.by_id }, some o.remaining)
]

unfoldable pub cancel : Book → Uuid → Book × Option ℕ
unfolding cancel_found
cancel b id = elim (lookup id b.by_id) [ none ↦ (b, none) | some o ↦ cancel_found b id o ]

-- Restore
abbrev pub restorable : OrderType → ℕ → Bool
restorable OrderType.limit remaining = ltb 0 remaining
restorable OrderType.market remaining = false

unfoldable pub restore : Book → Order → Book
unfolding remember rest
restore b o =
    let b' = rest (remember b o.id) o in
    if restorable o.order_type o.remaining
    then (if ltb b'.arrival o.seq then record b' { arrival = o.seq } else b')
    else b

-- BestBid and BestAsk
abbrev pub best : List Level → Option ℕ
best [] = none
best (lv ∷ ls) = some lv.price

abbrev pub best_bid : Book → Option ℕ
best_bid b = best b.bids

abbrev pub best_ask : Book → Option ℕ
best_ask b = best b.asks
