-- ===== src/Book/Levels/Ladder.antt =====
-- The shape of a side of the book: levels strictly from the best price to the worst, no level
-- empty, and every order at its own price with something left to fill.
use mathlib.Core.Path.{subst}
use trade_execution_operatin.Common.{
  ℕ, ◌≤◌, ◌<◌, ◌≡◌, true, false, some, List, [], ◌∷◌, ◌++◌, ◌==◌, arith, All, All-append, length,
  Bool-cases, inl, inr, Option-cases,
}
use trade_execution_operatin.Book.{Uuid, Side, OrderType, Order, Level}
use trade_execution_operatin.Book.Levels.{at_or_behind, insert_order, remove_order, keep_level}

-- Price `p` is strictly better than `q` for an order resting on the side.
abbrev pub Ahead : Side → ℕ → ℕ → Type 0
Ahead Side.buy p q = q < p
Ahead Side.sell p q = p < q

pub record IsResting (s : Side) (price : ℕ) (o : Order) : Type 0 where
  pub on_side : o.side ≡ s
  pub at_price : o.limit_price ≡ price
  pub is_limit : o.order_type ≡ OrderType.limit
  pub open_qty : 0 < o.remaining

-- A property of the price of every level.
abbrev pub Prices : (ℕ → Type 0) → List Level → Type 0
Prices P [] = Unit
Prices P (lv ∷ ls) = P lv.price × Prices P ls

abbrev pub IsLadder : Side → List Level → Type 0
IsLadder s [] = Unit
IsLadder s (lv ∷ ls) =
    (0 < length lv.orders)
    × All (IsResting s lv.price) lv.orders
    × Prices (Ahead s lv.price) ls
    × IsLadder s ls

pub Prices-map :
    {P Q : ℕ → Type 0} (ls : List Level) → ((p : ℕ) → P p → Q p) → Prices P ls → Prices Q ls
Prices-map [] f h = tt
Prices-map (lv ∷ ls) f h = (f lv.price h.0, Prices-map ls f h.1)

-- Resting puts the order's price among the prices of the side, and no other.
pub insert_order-Prices :
    (P : ℕ → Type 0) (s : Side) (o : Order) (ls : List Level)
    → P o.limit_price
    → Prices P ls
    → Prices P (insert_order s o ls)
unfolding insert_order
insert_order-Prices P s o [] h k = (h, tt)
insert_order-Prices P s o (lv ∷ ls) h k =
    elim (Bool-cases (at_or_behind s lv.price o.limit_price)) [
      | inr later ↦ rw later (k.0, insert_order-Prices P s o ls h k.1)
      | inl here ↦ elim (Bool-cases (lv.price == o.limit_price)) [
        | inl same ↦ rw (here, same) k
        | inr new ↦ rw (here, new) (h, k)
      ]
    ]

length_snoc {ℓ} : {A : Type ℓ} (xs : List A) (x : A) → 0 < length (xs ++ x ∷ [])
length_snoc [] x = omega arith
length_snoc (y ∷ xs) x = omega arith

pub Ahead-trans : (s : Side) (p q r : ℕ) → Ahead s p q → Ahead s q r → Ahead s p r
Ahead-trans Side.buy p q r h k = omega arith
Ahead-trans Side.sell p q r h k = omega arith

-- Where the level is at or behind the price and not at it, the price is ahead of the level.
pub Ahead-of_behind :
    (s : Side) (p q : ℕ) → at_or_behind s p q ≡ true → (p == q) ≡ false → Ahead s q p
Ahead-of_behind Side.buy p q h k = ground arith
Ahead-of_behind Side.sell p q h k = ground arith

pub Ahead-of_later : (s : Side) (p q : ℕ) → at_or_behind s p q ≡ false → Ahead s p q
Ahead-of_later Side.buy p q h = ground arith
Ahead-of_later Side.sell p q h = ground arith

-- Resting an order keeps the side sorted, whichever branch it takes.
pub insert_order-IsLadder :
    (s : Side) (o : Order) (ls : List Level)
    → IsResting s o.limit_price o
    → IsLadder s ls
    → IsLadder s (insert_order s o ls)
unfolding insert_order
insert_order-IsLadder s o [] r h = (omega arith, (r, tt), tt, tt)
insert_order-IsLadder s o (lv ∷ ls) r h =
    elim (Bool-cases (at_or_behind s lv.price o.limit_price)) [
      | inr later ↦ rw later (
        h.0,
        h.1,
        insert_order-Prices (Ahead s lv.price) s o ls (Ahead-of_later s _ _ later) h.2,
        insert_order-IsLadder s o ls r h.3,
      )
      | inl here ↦ elim (Bool-cases (lv.price == o.limit_price)) [
        | inl same ↦
            let e : o.limit_price ≡ lv.price = ground arith in
            rw (here, same)
              (
                length_snoc lv.orders o,
                All-append (IsResting s lv.price) lv.orders (o ∷ []) h.1
                    (subst (λ p. IsResting s p o) e r, tt),
                h.2,
                h.3,
              )
        | inr new ↦
            let first = Ahead-of_behind s lv.price o.limit_price here new in
            rw (here, new)
              (omega arith, (r, tt), (first, Prices-map ls (λ q. Ahead-trans s _ _ q first) h.2), h)
      ]
    ]

-- A queue that loses an order keeps the property of the others.
pub remove_order-All :
    (P : Order → Type 0) (id : Uuid) (os os' : List Order)
    → remove_order id os ≡ some os'
    → All P os
    → All P os'
unfolding remove_order
remove_order-All P id [] os' e h = cc
remove_order-All P id (o ∷ os) os' e h = elim (Bool-cases (o.id == id)) [
  | inl same ↦ let r : os ≡ os' = ground arith in subst (All P) r h.1
  | inr other ↦ elim (Option-cases (remove_order id os)) [
    | inl absent ↦ absurd (ground arith)
    | inr (rest, found) ↦
        let r : o ∷ rest ≡ os' = ground arith in
        subst (All P) r (h.0, remove_order-All P id os rest found h.1)
  ]
]

-- The levels of a shorter side are among those of the longer.
pub keep_level-Prices :
    (P : ℕ → Type 0) (p : ℕ) (os : List Order) (ls : List Level)
    → P p
    → Prices P ls
    → Prices P (keep_level p os ls)
keep_level-Prices P p [] ls h k = k
keep_level-Prices P p (o ∷ os) ls h k = (h, k)

pub keep_level-IsLadder :
    (s : Side) (p : ℕ) (os : List Order) (ls : List Level)
    → All (IsResting s p) os
    → Prices (Ahead s p) ls
    → IsLadder s ls
    → IsLadder s (keep_level p os ls)
keep_level-IsLadder s p [] ls h a k = k
keep_level-IsLadder s p (o ∷ os) ls h a k = (omega arith, h, a, k)

pub Prices-zip :
    {P Q R : ℕ → Type 0} (ls : List Level)
    → ((p : ℕ) → P p → Q p → R p)
    → Prices P ls
    → Prices Q ls
    → Prices R ls
Prices-zip [] f h k = tt
Prices-zip (lv ∷ ls) f h k = (f lv.price h.0 k.0, Prices-zip ls f h.1 k.1)

-- Price `p` is at least as good as `q` for an order resting on the side.
abbrev pub NotWorse : Side → ℕ → ℕ → Type 0
NotWorse Side.buy p q = q ≤ p
NotWorse Side.sell p q = p ≤ q

pub NotWorse-refl : (s : Side) (p : ℕ) → NotWorse s p p
NotWorse-refl Side.buy p = omega arith
NotWorse-refl Side.sell p = omega arith

pub Ahead-NotWorse : (s : Side) (p q : ℕ) → Ahead s p q → NotWorse s p q
Ahead-NotWorse Side.buy p q h = omega arith
Ahead-NotWorse Side.sell p q h = omega arith

pub Prices-all : {P : ℕ → Type 0} (ls : List Level) → ((p : ℕ) → P p) → Prices P ls
Prices-all [] f = tt
Prices-all (lv ∷ ls) f = (f lv.price, Prices-all ls f)
