-- ===== src/Book/Levels/Cancel.antt =====
-- Removing one order from a side, as Cancel of internal/book/book.go does: what it leaves.
use mathlib.Core.Path.{subst}
use trade_execution_operatin.Common.{
  ℕ, ◌≡◌, sym, some, List, [], ◌∷◌, ◌==◌, arith, Bool-cases, inl, inr, Option-cases, ◌⊎◌,
}
use trade_execution_operatin.Book.{Uuid, Side, Order, Level}
use trade_execution_operatin.Book.Levels.{remove_order, keep_level, cancel_order}
use trade_execution_operatin.Book.Levels.Ladder.{
  IsLadder, IsResting, Prices, Ahead, remove_order-All, keep_level-Prices, keep_level-IsLadder,
}

-- The two ways in which the outer loop finds the order.
abbrev FoundHere : ℕ → Uuid → Level → List Level → List Level → Type 0
FoundHere price id lv ls ls' =
    (os : List Order) × (lv.price ≡ price)
    × (remove_order id lv.orders ≡ some os)
    × (ls' ≡ keep_level lv.price os ls)

abbrev FoundLater : ℕ → Uuid → Level → List Level → List Level → Type 0
FoundLater price id lv ls ls' =
    (rest : List Level) × (cancel_order price id ls ≡ some rest) × (ls' ≡ lv ∷ rest)

cancel_order_inv :
    (price : ℕ) (id : Uuid) (lv : Level) (ls ls' : List Level)
    → cancel_order price id (lv ∷ ls) ≡ some ls'
    → FoundHere price id lv ls ls' ⊎ FoundLater price id lv ls ls'
unfolding cancel_order
cancel_order_inv price id lv ls ls' e = elim (Option-cases (cancel_order price id ls)) [
  | inr (rest, later) ↦ elim (Option-cases (remove_order id lv.orders)) [
    | inl absent ↦ inr (rest, later, ground arith)
    | inr (os, found) ↦ elim (Bool-cases (lv.price == price)) [
      | inl at ↦ inl (os, ground arith, found, ground arith)
      | inr off ↦ inr (rest, later, ground arith)
    ]
  ]
  | inl nowhere ↦ elim (Option-cases (remove_order id lv.orders)) [
    | inl absent ↦ absurd (ground arith)
    | inr (os, found) ↦ inl (os, ground arith, found, ground arith)
  ]
]

module _ (price : ℕ) (id : Uuid) where
  -- Cancelling adds no price to the side.
  pub cancel_order-Prices :
      (P : ℕ → Type 0) (ls ls' : List Level)
      → cancel_order price id ls ≡ some ls'
      → Prices P ls
      → Prices P ls'
  cancel_order-Prices P [] ls' e h = unfold cancel_order in cc
  cancel_order-Prices P (lv ∷ ls) ls' e h = elim (cancel_order_inv price id lv ls ls' e) [
    | inl (os, _, _, r) ↦ subst (Prices P) (sym r) (keep_level-Prices P lv.price os ls h.0 h.1)
    | inr (rest, later, r) ↦ subst (Prices P) (sym r) (h.0, cancel_order-Prices P ls rest later h.1)
  ]

  -- Cancelling keeps the side sorted and every level non-empty.
  pub cancel_order-IsLadder :
      (s : Side) (ls ls' : List Level)
      → cancel_order price id ls ≡ some ls'
      → IsLadder s ls
      → IsLadder s ls'
  cancel_order-IsLadder s [] ls' e h = unfold cancel_order in cc
  cancel_order-IsLadder s (lv ∷ ls) ls' e h = elim (cancel_order_inv price id lv ls ls' e) [
    | inl (os, _, found, r) ↦ subst (IsLadder s) (sym r) (
        keep_level-IsLadder s lv.price os ls
          (remove_order-All (IsResting s lv.price) id lv.orders os found h.1) h.2 h.3)
    | inr (rest, later, r) ↦ subst (IsLadder s) (sym r) (
      h.0,
      h.1,
      cancel_order-Prices (Ahead s lv.price) ls rest later h.2,
      cancel_order-IsLadder s ls rest later h.3,
    )
  ]
