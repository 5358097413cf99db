-- ===== src/Engine/Position/Accounting.antt =====
-- Conservation of cash through a position, and the rounding of its cost basis.
use trade_execution_operatin.Common.{
  ℕ, ◌+◌, ◌-◌, ◌*◌, ◌/◌, ◌≤◌, ◌<◌, ◌≡◌, refl, ap, ◌∙◌, inl, inr, arith, Bool-cases,
}
use trade_execution_operatin.Common.Int.{ℤ, pos, ◌≤ℤ◌, ◌+ℤ◌, ◌-ℤ◌, ◌*ℤ◌, leb_ℤ, int_laws}
use trade_execution_operatin.Common.Int64.{word, max_int64, wrap64, wrap64_id, add64, sub64, quot64}
use trade_execution_operatin.Money.{Minor, Qty}
use trade_execution_operatin.Engine.Position.{PositionState, apply_buy, apply_sell, cost_out, apply}

-- Wrapping is a congruence for sums and differences.
wrap64-+ℤ_left : (a b : ℤ) → wrap64 (wrap64 a +ℤ b) ≡ wrap64 (a +ℤ b)
unfolding wrap64 ◌+ℤ◌
wrap64-+ℤ_left a b = ground arith

wrap64--ℤ_left : (a b : ℤ) → wrap64 (wrap64 a -ℤ b) ≡ wrap64 (a -ℤ b)
unfolding wrap64 ◌-ℤ◌
wrap64--ℤ_left a b = ground arith

wrap64--ℤ_right : (a b : ℤ) → wrap64 (a -ℤ wrap64 b) ≡ wrap64 (a -ℤ b)
unfolding wrap64 ◌-ℤ◌
wrap64--ℤ_right a b = ground arith

wrap64-+ℤ_right : (a b : ℤ) → wrap64 (a +ℤ wrap64 b) ≡ wrap64 (a +ℤ b)
wrap64-+ℤ_right a b =
    let flip : a +ℤ wrap64 b ≡ wrap64 b +ℤ a = omega int_laws in
    let flop : b +ℤ a ≡ a +ℤ b = omega int_laws in rw (flip, wrap64-+ℤ_left, flop)

ruleset wrapping = (wrap64-+ℤ_left, wrap64-+ℤ_right, wrap64--ℤ_left, wrap64--ℤ_right)

-- Realized profit less basis moves by exactly the cash leg, for every share delta and whatever
-- branch the cost takes; on int64, modulo 2^64, with no assumption on the sizes.
pub apply_conserves :
    (p : PositionState) (delta : Qty) (cash : Minor)
    → let p' = apply p delta cash in
      sub64 p'.realized p'.basis ≡ add64 (sub64 p.realized p.basis) cash
unfolding apply apply_buy apply_sell
apply_conserves p delta cash = elim (Bool-cases (leb_ℤ (pos 0) delta)) [
  | inl buy ↦ rw buy (simp wrapping (ap wrap64 (omega int_laws)))
  | inr sell ↦ rw sell (simp wrapping (ap wrap64 (omega int_laws)))
]

cost_out_whole :
    (p : PositionState) (qty : Qty) → pos 1 ≤ℤ p.qty → p.qty ≤ℤ qty → cost_out p qty ≡ p.basis
unfolding cost_out
cost_out_whole p qty long all = ground arith

diff_self : (z : ℤ) → sub64 z z ≡ pos 0
diff_self z =
    ap wrap64 (let e : z -ℤ z ≡ pos 0 = omega int_laws in e) ∙ wrap64_id (pos 0) (omega arith)

-- A sale of at least the whole of a position of at least one unit takes the entire basis: no basis
-- is left, and what is realized is the proceeds less that basis.
pub apply_sell_closes :
    (p : PositionState) (qty : Qty) (proceeds : Minor)
    → pos 1 ≤ℤ p.qty
    → p.qty ≤ℤ qty
    → let p' = apply_sell p qty proceeds in
      (p'.basis ≡ pos 0) × (p'.realized ≡ add64 p.realized (sub64 proceeds p.basis))
unfolding apply_sell
apply_sell_closes p qty proceeds long all =
    rw (cost_out_whole p qty long all) (diff_self p.basis, refl)

module _ (b q h : ℕ) (realized proceeds : ℤ) (partial : q < h) (fits : h ≤ max_int64) where
  abbrev held : PositionState
  held = record { qty = pos h; basis = pos b; realized = realized }

  -- A sale of `q` of `h` units, fewer than all, takes the proportional basis `b * q / h`, rounded
  -- down and at most `b`, as long as the basis, the quantity held and the product `b * q` fit in an
  -- int64.
  pub apply_sell_proportional :
      b * q ≤ max_int64
      → b ≤ max_int64
      → let p' = apply_sell held (pos q) proceeds in
        (p'.qty ≡ pos (h - q)) × (p'.basis ≡ pos (b - b * q / h)) × (b * q / h ≤ b)
  unfolding apply_sell cost_out wrap64 ◌-ℤ◌ ◌*ℤ◌ quot64
  apply_sell_proportional small hb = let frac : b * q / h ≤ b = grind arith in ground arith

  -- A sale of `q` of `h` units, fewer than all, where `b * q` is from 2^63 up to 2^64 raises the
  -- basis of the units that are left, by `(2^64 - b * q) / h` rounded down, as long as that sum and
  -- the quantity held fit in an int64: the product wraps to a negative number.
  pub apply_sell_overflow :
      max_int64 < b * q
      → b * q < word
      → b + (word - b * q) / h ≤ max_int64
      → (apply_sell held (pos q) proceeds).basis ≡ pos (b + (word - b * q) / h)
  unfolding apply_sell cost_out wrap64 ◌-ℤ◌ ◌*ℤ◌ quot64
  apply_sell_overflow big small room = ground arith
