-- ===== src/Matching/Tests.antt =====
-- A shard of internal/matching with one venue, and an order larger than what its book offers.
use trade_execution_operatin.Common.{
  ℕ, ◌-◌, ◌≤◌, ◌<◌, ◌≡◌, refl, Option, false, none, some, List, [], ◌∷◌, arith, replicate,
}
use trade_execution_operatin.Common.Names.{name_eq, name_ltb}
use trade_execution_operatin.Book.{
  Name, Side, OrderType, Tif, Order, Disposition, Outcome, Book, crosses, side_of,
}
use trade_execution_operatin.Book.Sweep.{trade, trade_best, at_best, round}
use trade_execution_operatin.Book.Submit.{ignored, submit, seen, cancel, restore}
use trade_execution_operatin.Book.Submit.Dedup.{dedup}
use trade_execution_operatin.Book.Submit.Window.{
  IsRing, new-IsRing, Call, submitting, cancelling, restoring, calls,
}
use trade_execution_operatin.Book.Submit.Later.{submit_again}
use trade_execution_operatin.Matching.{Config, remember_id}
use trade_execution_operatin.Matching.Route.{
  route, plan, offers, depth, sort_quotes, insert_quote, ahead, add_plan, crossable,
}
use trade_execution_operatin.Matching.Route.Bounded.{planned, route_bounded, crossable-crosses}
use trade_execution_operatin.Matching.Handle.{slice, remainder, filled_by, Verdict, Shard, on_order}
use trade_execution_operatin.Matching.Handle.Stranded.{one_book, on_order_strands}

abbrev ask : ℕ → ℕ → ℕ → Order
ask id price qty = record {
  id = id;
  account = id;
  side = Side.sell;
  order_type = OrderType.limit;
  tif = Tif.gtc;
  qty = qty;
  remaining = qty;
  limit_price = price;
  ref_price = 0;
  seq = id;
}

abbrev primary : Name
primary = 80 ∷ []

abbrev config : Config
config = record {
  shard_id = 0;
  venues = record { name = primary; latency = 0 } ∷ [];
  collar_bps = 500;
  dedup_window = 4;
}

-- Asks of 9 at 101 and 6 at 103.
abbrev book : Book
book = record {
  symbol = 65 ∷ [];
  venue = primary;
  shard_id = 0;
  collar_bps = 500;
  bids = [];
  asks =
      record { price = 101; orders = ask 1 101 9 ∷ [] }
      ∷ record { price = 103; orders = ask 2 103 6 ∷ [] }
      ∷ [];
  by_id = (1, ask 1 101 9) ∷ (2, ask 2 103 6) ∷ [];
  arrival = 2;
  book_seq = 0;
  dedup_ring = replicate 4 0;
  dedup_set = [];
  dedup_next = 0;
  dedup_limit = 4;
}

-- A buy of 20 at 104.
abbrev bid : Order
bid = record (ask 9 104 20) { side = Side.buy }

routed : route config bid (one_book primary book) ≡ record { venue = primary; qty = 15 } ∷ []
unfolding route plan offers depth sort_quotes insert_quote ahead add_plan crossable name_eq name_ltb
routed = refl

route_bounded_example : planned (route config bid (one_book primary book)) ≤ 20
route_bounded_example = route_bounded config bid (one_book primary book)

crossable-crosses_example : crossable bid 103 500 ≡ crosses 500 bid 103
crossable-crosses_example = crossable-crosses bid 103 500

abbrev result : Option (Book × Outcome) → Book × Outcome
result none = (book, ignored)
result (some r) = r

abbrev sliced : Book × Outcome
unfolding submit
sliced = result (submit book (slice bid 15))

slice_submitted :
    (submit book (slice bid 15) ≡ some (sliced.0, sliced.1)) × (filled_by sliced.1.fills < 20)
unfolding submit round at_best trade_best trade crosses
slice_submitted = (refl, omega arith)

-- Another order, a cancel of it and a restored order come between.
abbrev between : List Call
between = submitting (ask 11 200 1) ∷ cancelling 11 ∷ restoring (ask 12 210 1) ∷ []

abbrev or_book : Option Book → Book
or_book none = book
or_book (some b) = b

abbrev later : Book
unfolding calls submit round at_best trade_best trade crosses cancel restore
later = or_book (calls between sliced.0)

later_lem : calls between sliced.0 ≡ some later
unfolding calls submit round at_best trade_best trade crosses cancel restore
later_lem = refl

submit_again_example :
    (submit later (remainder bid 5) ≡ some (later, ignored)) × IsRing (dedup later)
unfolding seen
submit_again_example =
    submit_again between book sliced.0 later (slice bid 15) (remainder bid 5) sliced.1
      (new-IsRing 4 (omega arith)) refl refl slice_submitted.0 later_lem (omega arith) refl

-- The bound is sharp: with as many ids as the ring has slots in between, the first is forgotten.
abbrev filler : List Call
filler =
    submitting (ask 11 200 1)
    ∷ submitting (ask 12 200 1)
    ∷ submitting (ask 13 200 1)
    ∷ submitting (ask 14 200 1)
    ∷ []

forgotten : seen (or_book (calls filler sliced.0)) 9 ≡ false
unfolding calls submit round at_best trade_best trade crosses cancel restore seen
forgotten = refl

-- The order names no venue, as by default.
abbrev shard : Shard
shard = record {
  books = one_book primary book;
  seen = record { ids = []; ring = replicate 4 0; next = 0 };
  suppressed = 0;
}

on_order_strands_example :
    (verdict : Verdict) × (on_order config (65 ∷ []) [] bid shard
      ≡ some (
        record shard { books = one_book primary sliced.0; seen = remember_id shard.seen 9 },
        some verdict,
      ))
    × (verdict.disposition ≡ Disposition.rested)
    × (verdict.remaining ≡ 20 - filled_by sliced.1.fills)
    × (side_of Side.buy sliced.0 ≡ [])
on_order_strands_example =
    on_order_strands config (65 ∷ []) primary [] bid 15 book sliced.0 sliced.1 shard refl refl refl
      refl routed slice_submitted.0 slice_submitted.1
