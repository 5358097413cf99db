-- ===== src/Matching/Route.antt =====
-- internal/matching/router.go: how an order is split over the venues, best price first.
pub mod Bounded
use trade_execution_operatin.Common.{
  ℕ, zero, suc, ◌+◌, ◌-◌, ◌%◌, Bool, true, false, ◌&&◌, ◌||◌, not, Option, none, some, List, [],
  ◌∷◌, ◌++◌, if◌then◌else◌, ltb, leb, ◌==◌,
}
use trade_execution_operatin.Common.Int.{ℤ, pos}
use trade_execution_operatin.Common.Int64.{word, max_int64}
use trade_execution_operatin.Common.Names.{name_eq, name_ltb}
use trade_execution_operatin.Money.{apply_bps, sub_bps}
use trade_execution_operatin.Book.{
  Name, Side, opposite, OrderType, Order, Level, Book, leb_bound, geb_bound, side_of,
}
use trade_execution_operatin.Book.Levels.{queue_qty}
use trade_execution_operatin.Book.Sweep.{min}
use trade_execution_operatin.Matching.{Venue, Config, Books, venue_latency}

-- crossable: the router's own copy of the crossing rule.
unfoldable pub crossable : Order → ℕ → ℕ → Bool
crossable o price collar = elim o.order_type [
  | OrderType.limit ↦ elim o.side [
    | Side.buy ↦ leb price o.limit_price
    | Side.sell ↦ leb o.limit_price price
  ]
  | OrderType.market ↦ if o.ref_price == 0 then false else elim o.side [
    | Side.buy ↦ leb_bound price (apply_bps (pos o.ref_price) (pos collar))
    | Side.sell ↦ geb_bound price (sub_bps (pos o.ref_price) (pos collar))
  ]
]

-- The quote of one level of one venue.
pub record Quote : Type 0 where
  pub venue : Name
  pub price : ℕ
  pub qty : ℕ
  pub latency : ℕ

-- The total of a level, summed in int64. Where the sum wraps below zero it is offered as 0 here, since
-- the router takes nothing of a quantity that is not positive.
abbrev pub offered : ℕ → ℕ
offered total = let bits = total % word in if leb bits max_int64 then bits else 0

-- Depth, of one side: the price and the total quantity of up to `n` levels.
unfoldable pub depth : ℕ → List Level → List (ℕ × ℕ)
depth zero ls = []
depth (suc n) [] = []
depth (suc n) (lv ∷ ls) = (lv.price, offered (queue_qty lv.orders)) ∷ depth n ls

abbrev pub quotes : Name → ℕ → List (ℕ × ℕ) → List Quote
quotes v lat [] = []
quotes v lat (d ∷ ds) =
    record { venue = v; price = d.0; qty = d.1; latency = lat } ∷ quotes v lat ds

-- The offers of every venue on the side that the order takes from, 2^20 levels at most.
unfoldable pub offers : Config → Side → Books → List Quote
unfolding depth
offers cfg s [] = []
offers cfg s (e ∷ books) =
    quotes e.0 (venue_latency e.0 cfg.venues) (depth 1048576 (side_of (opposite s) e.1))
    ++ offers cfg s books

-- The comparison of sort.SliceStable.
abbrev pub better_price : Side → ℕ → ℕ → Bool
better_price Side.buy a b = ltb a b
better_price Side.sell a b = ltb b a

unfoldable pub ahead : Side → Quote → Quote → Bool
unfolding name_ltb
ahead s a b =
    if not (a.price == b.price)
    then better_price s a.price b.price
    else if not (a.latency == b.latency)
    then ltb a.latency b.latency
    else name_ltb a.venue b.venue

-- A stable sort, by insertion from the back.
unfoldable pub insert_quote : Side → Quote → List Quote → List Quote
unfolding ahead
insert_quote s q [] = q ∷ []
insert_quote s q (x ∷ xs) =
    let later = insert_quote s q xs in if ahead s x q then x ∷ later else q ∷ x ∷ xs

unfoldable pub sort_quotes : Side → List Quote → List Quote
unfolding insert_quote
sort_quotes s [] = []
sort_quotes s (q ∷ qs) = insert_quote s q (sort_quotes s qs)

-- type routePlan, and `planned[venue] += take`, in the order in which venues first appear.
pub record RoutePlan : Type 0 where
  pub venue : Name
  pub qty : ℕ

unfoldable pub add_plan : Name → ℕ → List RoutePlan → List RoutePlan
unfolding name_eq
add_plan v take [] = record { venue = v; qty = take } ∷ []
add_plan v take (p ∷ ps) =
    let later = add_plan v take ps in
    if name_eq p.venue v then record p { qty = p.qty + take } ∷ ps else p ∷ later

-- The loop over the sorted offers.
unfoldable pub plan : Config → Order → ℕ → List Quote → List RoutePlan → List RoutePlan
unfolding crossable add_plan
plan cfg o remaining [] acc = acc
plan cfg o remaining (q ∷ qs) acc =
    let take = min q.qty remaining in
    let skipped = plan cfg o remaining qs acc in
    let taken = plan cfg o (remaining - take) qs (add_plan q.venue take acc) in
    if remaining == 0
    then acc
    else if not (crossable o q.price cfg.collar_bps)
    then skipped
    else if take == 0
    then skipped
    else taken

-- route
unfoldable pub route : Config → Order → Books → List RoutePlan
unfolding plan offers sort_quotes
route cfg o books =
    let best_first = sort_quotes o.side (offers cfg o.side books) in
    if o.remaining == 0 then [] else plan cfg o o.remaining best_first []
