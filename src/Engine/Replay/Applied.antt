-- ===== src/Engine/Replay/Applied.antt =====
-- The amounts of a fill half of internal/engine/outcomes.go, as a replay applies them to a position.
use mathlib.Core.Path.{subst}
use trade_execution_operatin.Common.{
  ℕ, ◌≤◌, ◌≡◌, refl, sym, ap, ◌∙◌, Bool, true, false, if◌then◌else◌, Bool-cases, inl, inr, arith,
  zero, suc,
}
use trade_execution_operatin.Common.Int.{ℤ, pos, negsuc, ltb_ℤ, leb_ℤ, eqb_ℤ, ◌+ℤ◌, ◌-ℤ◌, int_laws}
use trade_execution_operatin.Common.Int64.{
  IsInt64, add64, sub64, neg64, neg64_exact, wrap64, wrap64_id, wrap64-IsInt64, max_int64,
}
use trade_execution_operatin.Common.Names.{false-ne-true}
use trade_execution_operatin.Money.{Minor, Qty}
use trade_execution_operatin.Engine.Position.{PositionState, apply, apply_buy, apply_sell}
use trade_execution_operatin.Engine.Replay.Half.{cash_leg, shares_leg}

wrap_neg : (z : ℤ) → wrap64 (pos 0 -ℤ wrap64 z) ≡ wrap64 (pos 0 -ℤ z)
unfolding wrap64 ◌-ℤ◌
wrap_neg z = ground arith

wrap_sub : (z b : ℤ) → wrap64 (wrap64 z -ℤ b) ≡ wrap64 (z -ℤ b)
unfolding wrap64 ◌-ℤ◌
wrap_sub z b = ground arith

neg64_sub : (a b : ℤ) → neg64 (sub64 (neg64 a) b) ≡ add64 a b
neg64_sub a b =
    let y = pos 0 -ℤ a in
    wrap_neg (wrap64 y -ℤ b)
    ∙ sym (wrap_neg (wrap64 y -ℤ b))
    ∙ ap (λ x. wrap64 (pos 0 -ℤ x)) (wrap_sub y b)
    ∙ wrap_neg (y -ℤ b)
    ∙ ap wrap64 (let e : pos 0 -ℤ ((pos 0 -ℤ a) -ℤ b) ≡ a +ℤ b = omega int_laws in e)

neg64_neg : (a : ℤ) → IsInt64 a → neg64 (neg64 a) ≡ a
neg64_neg a h =
    wrap_neg (pos 0 -ℤ a)
    ∙ ap wrap64 (let e : pos 0 -ℤ (pos 0 -ℤ a) ≡ a = omega int_laws in e)
    ∙ wrap64_id a h

neg64_negative : (k : ℕ) → suc k ≤ max_int64 → neg64 (pos (suc k)) ≡ negsuc k
unfolding wrap64 ◌-ℤ◌
neg64_negative k h = ground arith

apply_pos :
    (p : PositionState) (k : ℕ) (notional fee : Minor) (buying : Bool)
    → suc k ≤ max_int64
    → IsInt64 notional
    → apply p (shares_leg (pos (suc k)) buying) (cash_leg notional fee buying) ≡ (
        if buying
        then apply_buy p (pos (suc k)) (add64 notional fee)
        else apply_sell p (pos (suc k)) (sub64 notional fee))
unfolding apply
apply_pos p k notional fee true small fits =
    let buying : leb_ℤ (pos 0) (pos (suc k)) ≡ true = ground arith in
    rw buying (ap (apply_buy p (pos (suc k))) (neg64_sub notional fee))
apply_pos p k notional fee false small fits =
    let selling : leb_ℤ (pos 0) (negsuc k) ≡ false = ground arith in
    rw (neg64_negative k small, selling)
      (ap (λ q. apply_sell p q (cash_leg notional fee false)) (neg64_exact k small)
        ∙ ap (λ n. apply_sell p (pos (suc k)) (sub64 n fee)) (neg64_neg notional fits))

positive_form :
    (q : ℤ)
    → ltb_ℤ (pos 0) q ≡ true
    → IsInt64 q
    → (k : ℕ) × ((q ≡ pos (suc k)) × (suc k ≤ max_int64))
positive_form (pos zero) h fits = absurd (false-ne-true h)
positive_form (pos (suc k)) h fits = (k, (refl, fits.0))
positive_form (negsuc k) h fits =
    absurd (false-ne-true (let e : ltb_ℤ (pos 0) (negsuc k) ≡ false = ground arith in sym e ∙ h))

module _ (qty : Qty) (notional fee : Minor) (buying : Bool) (positive : ltb_ℤ (pos 0) qty ≡ true)
    (qty_fits : IsInt64 qty) (notional_fits : IsInt64 notional) where
  -- The position leg and the cash leg of a fill half, applied as `apply` does, are what
  -- applyPositionDelta writes.
  pub half-apply :
      (p : PositionState)
      → apply p (shares_leg qty buying) (cash_leg notional fee buying) ≡ (
          if buying
          then apply_buy p qty (add64 notional fee)
          else apply_sell p qty (sub64 notional fee))
  half-apply p =
      let (k, (e, small)) = positive_form qty positive qty_fits in
      subst
        (λ q. apply p (shares_leg q buying) (cash_leg notional fee buying) ≡ (
          if buying
          then apply_buy p q (add64 notional fee)
          else apply_sell p q (sub64 notional fee)))
        (sym e) (apply_pos p k notional fee buying small notional_fits)

  pub shares_moved : eqb_ℤ (shares_leg qty buying) (pos 0) ≡ false
  shares_moved =
      let (k, (e, small)) = positive_form qty positive qty_fits in
      elim (Bool-cases buying) [
        | inl b ↦ rw b (ground arith)
        | inr b ↦ rw (b, e, neg64_negative k small) (ground arith)
      ]

  pub shares_fit : IsInt64 (shares_leg qty buying)
  shares_fit = elim (Bool-cases buying) [
    | inl e ↦ rw e qty_fits
    | inr e ↦ rw e (wrap64-IsInt64 (pos 0 -ℤ qty))
  ]
