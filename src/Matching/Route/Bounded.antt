-- ===== src/Matching/Route/Bounded.antt =====
-- The plan of internal/matching/router.go: never more than the order asks for, and only at prices that
-- the books will execute.
use trade_execution_operatin.Common.{
  ℕ, ◌+◌, ◌-◌, ◌≤◌, ◌≡◌, List, [], ◌∷◌, ◌==◌, arith, Bool-cases, inl, inr,
}
use trade_execution_operatin.Book.{Name, Order, crosses_limit, crosses_market, crosses}
use trade_execution_operatin.Book.Sweep.{min}
use trade_execution_operatin.Matching.{Config, Books}
use trade_execution_operatin.Matching.Route.{
  crossable, Quote, offers, sort_quotes, RoutePlan, add_plan, plan, route,
}

abbrev pub planned : List RoutePlan → ℕ
planned [] = 0
planned (p ∷ ps) = p.qty + planned ps

planned-add_plan :
    (v : Name) (take : ℕ) (ps : List RoutePlan) → planned (add_plan v take ps) ≡ take + planned ps
unfolding add_plan
planned-add_plan v take [] = omega arith
planned-add_plan v take (p ∷ ps) = ground (arith, planned-add_plan v take ps)

planned-plan :
    (cfg : Config) (o : Order) (remaining : ℕ) (qs : List Quote) (acc : List RoutePlan)
    → planned (plan cfg o remaining qs acc) ≤ remaining + planned acc
unfolding plan
planned-plan cfg o remaining [] acc = omega arith
planned-plan cfg o remaining (q ∷ qs) acc =
    let take = min q.qty remaining in
    let skip = planned-plan cfg o remaining qs acc in
    let more = planned-plan cfg o (remaining - take) qs (add_plan q.venue take acc) in
    let sum = planned-add_plan q.venue take acc in ground (arith, skip, more, sum)

-- Whatever the venues offer, the quantities of a route never sum to more than what is left of the
-- order.
pub route_bounded :
    (cfg : Config) (o : Order) (books : Books) → planned (route cfg o books) ≤ o.remaining
unfolding route
route_bounded cfg o books = elim (Bool-cases (o.remaining == 0)) [
  | inl none_left ↦ rw none_left (omega arith)
  | inr some_left ↦
      let best_first = sort_quotes o.side (offers cfg o.side books) in
      let most = planned-plan cfg o o.remaining best_first [] in rw some_left (omega arith)
]

-- The router's crossing rule and the book's agree on every order and price, for the same collar.
pub crossable-crosses :
    (o : Order) (price collar : ℕ) → crossable o price collar ≡ crosses collar o price
unfolding crossable crosses crosses_limit crosses_market
crossable-crosses o price collar = ground arith
