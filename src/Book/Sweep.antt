-- ===== src/Book/Sweep.antt =====
-- The matching loop of Submit in internal/book/book.go: one round of the loop, and the rounds.
pub mod Loop
pub mod Total
pub mod Effect
use trade_execution_operatin.Common.{
  ℕ, zero, suc, ◌+◌, ◌-◌, Bool, true, false, Option, none, some, List, [], ◌∷◌, ◌++◌, ltb, ◌==◌,
  if◌then◌else◌, length,
}
use trade_execution_operatin.Common.Dict.{Dict, insert, erase}
use trade_execution_operatin.Book.{Order, Fill, Level, Book, next_u64, crosses}
use trade_execution_operatin.Book.Levels.{keep_level}

-- What the loop changes: o.Remaining, the opposite side, byID, bookSeq and res.Fills.
pub record Sweep : Type 0 where
  pub remaining : ℕ
  pub levels : List Level
  pub by_id : Dict Order
  pub book_seq : ℕ
  pub fills : List Fill

-- One round: the loop's test fails, `best.orders[0]` is out of range, or there is a fill.
pub data Round : Type 0 where
  done : Round
  panic : Round
  traded : Sweep → Round

abbrev pub min : ℕ → ℕ → ℕ
min a b = if ltb b a then b else a

-- The Fill literal.
abbrev pub make_fill : Book → Order → Order → ℕ → ℕ → ℕ → Fill
make_fill b o maker seq price qty = record {
  shard_id = b.shard_id;
  venue = b.venue;
  symbol = b.symbol;
  book_seq = seq;
  price = price;
  qty = qty;
  taker_order = o.id;
  taker_account = o.account;
  taker_side = o.side;
  maker_order = maker.id;
  maker_account = maker.account;
}

-- The body of the loop after the crossing test, for the maker at the head of the best level. A
-- maker that is used up leaves byID and its queue, and an empty level leaves the side.
unfoldable pub trade : Book → Order → Sweep → ℕ → Order → List Order → List Level → Sweep
trade b o s price maker queue ls =
    let qty = min s.remaining maker.remaining in
    let left = maker.remaining - qty in
    let maker' = record maker { remaining = left } in
    let seq = next_u64 s.book_seq in
    record {
      remaining = s.remaining - qty;
      levels =
          (if left == 0
            then keep_level price queue ls
            else record { price = price; orders = maker' ∷ queue } ∷ ls);
      by_id = (if left == 0 then erase maker.id s.by_id else insert maker.id maker' s.by_id);
      book_seq = seq;
      fills = s.fills ++ make_fill b o maker seq price qty ∷ [];
    }

unfoldable pub trade_best : Book → Order → Sweep → ℕ → List Order → List Level → Round
trade_best b o s price [] ls = Round.panic
trade_best b o s price (maker ∷ queue) ls = Round.traded (trade b o s price maker queue ls)

unfoldable pub at_best : Book → Order → Sweep → List Level → Round
at_best b o s [] = Round.done
at_best b o s (lv ∷ ls) =
    if crosses b.collar_bps o lv.price then trade_best b o s lv.price lv.orders ls else Round.done

-- One round of `for o.Remaining > 0 && len(*opposite) > 0`.
unfoldable pub round : Book → Order → Sweep → Round
round b o s = if s.remaining == 0 then Round.done else at_best b o s s.levels

-- The loop, on fuel. `none`: it panicked, or the fuel ran out.
unfoldable pub sweep : ℕ → Book → Order → Sweep → Option Sweep
sweep zero b o s = none
sweep (suc f) b o s = elim (round b o s) [
  | Round.done ↦ some s
  | Round.panic ↦ none
  | Round.traded s' ↦ sweep f b o s'
]

-- The number of orders on a side: each round takes one away or uses the taker up.
abbrev pub side_len : List Level → ℕ
side_len [] = 0
side_len (lv ∷ ls) = length lv.orders + side_len ls

abbrev pub fuel_of : Sweep → ℕ
fuel_of s = side_len s.levels + 2
