-- ===== src/Engine/Position.antt =====
-- internal/engine/position.go: average-cost accounting of one symbol in one account, on int64.
pub mod Accounting
use trade_execution_operatin.Common.{ℕ, ◌≡◌, if◌then◌else◌, Bool}
use trade_execution_operatin.Common.Int.{ℤ, pos, leb_ℤ}
use trade_execution_operatin.Common.Int64.{add64, sub64, mul64, quot64, neg64}
use trade_execution_operatin.Money.{Minor, Qty}

pub record PositionState : Type 0 where
  pub qty : Qty
  pub basis : Minor
  pub realized : Minor

-- applyBuy
unfoldable pub apply_buy : PositionState → Qty → Minor → PositionState
apply_buy p qty cost = record p { qty = add64 p.qty qty; basis = add64 p.basis cost }

-- The switch of applySell: the cost basis that leaves with the shares.
unfoldable pub cost_out : PositionState → Qty → Minor
cost_out p qty =
    if leb_ℤ p.qty (pos 0)
    then pos 0
    else if leb_ℤ p.qty qty
    then p.basis
    else quot64 (mul64 p.basis qty) p.qty

-- applySell
unfoldable pub apply_sell : PositionState → Qty → Minor → PositionState
apply_sell p qty proceeds =
    let cost = cost_out p qty in
    record {
      qty = sub64 p.qty qty;
      basis = sub64 p.basis cost;
      realized = add64 p.realized (sub64 proceeds cost);
    }

-- apply
unfoldable pub apply : PositionState → Qty → Minor → PositionState
apply p delta_qty cash_leg =
    if leb_ℤ (pos 0) delta_qty
    then apply_buy p delta_qty (neg64 cash_leg)
    else apply_sell p (neg64 delta_qty) cash_leg
