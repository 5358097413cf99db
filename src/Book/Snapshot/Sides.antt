-- ===== src/Book/Snapshot/Sides.antt =====
-- The orders of a side, and what resting one does to the sides: internal/book/book.go.
use mathlib.Core.Path.{subst}
use mathlib.Core.List.{append-nil}
use trade_execution_operatin.Common.{
  ℕ, ◌≡◌, refl, ap, ◌∙◌, true, false, List, [], ◌∷◌, ◌++◌, ◌==◌, ==_iff, if◌then◌else◌, Bool-cases,
  inl, inr, All, All-map, All-append,
}
use trade_execution_operatin.Common.Dict.{Dict, contains}
use trade_execution_operatin.Book.{Uuid, Side, Order, Level, Book, side_of, with_side}
use trade_execution_operatin.Book.Levels.Ladder.{Ahead, IsResting, Prices, IsLadder}
use trade_execution_operatin.Book.Submit.{remember}
use trade_execution_operatin.Book.Snapshot.{level_orders}
use trade_execution_operatin.Book.Snapshot.Queues.{queue_at, no_queue}
use trade_execution_operatin.Book.Snapshot.Priority.{is_side, picks, picks-append}

is_side_same : (s : Side) → is_side s s ≡ true
is_side_same Side.buy = refl
is_side_same Side.sell = refl

-- What a level holds for a side and a price.
picks_level :
    (s : Side) (p price : ℕ) (os : List Order)
    → All (IsResting s price) os
    → picks s p os ≡ (if price == p then os else [])
picks_level s p price [] h = elim (Bool-cases (price == p)) [
  | inl e ↦ rw e refl
  | inr e ↦ rw e refl
]
picks_level s p price (o ∷ os) h =
    let side : is_side s o.side ≡ true = ap (is_side s) h.0.on_side ∙ is_side_same s in
    let at : (o.limit_price == p) ≡ (price == p) = ap (λ q. q == p) h.0.at_price in
    elim (Bool-cases (price == p)) [
      | inl e ↦ rw (side, at, e) (ap (λ l. o ∷ l) (picks_level s p price os h.1 ∙ rw e refl))
      | inr e ↦ rw (side, at, e) (picks_level s p price os h.1 ∙ rw e refl)
    ]

picks_opposite :
    (s t : Side) (p price : ℕ) (os : List Order)
    → is_side s t ≡ false
    → All (IsResting t price) os
    → picks s p os ≡ []
picks_opposite s t p price [] n h = refl
picks_opposite s t p price (o ∷ os) n h =
    let side : is_side s o.side ≡ false = ap (is_side s) h.0.on_side ∙ n in
    rw side (picks_opposite s t p price os n h.1)

level_first :
    (s : Side) (p : ℕ) (lv : Level) (ls : List Level)
    → Prices (Ahead s lv.price) ls
    → (if lv.price == p then lv.orders else []) ++ queue_at p ls ≡ queue_at p (lv ∷ ls)
level_first s p lv ls h = elim (Bool-cases (lv.price == p)) [
  | inl e ↦
      let same = (==_iff lv.price p).0 e in
      rw e (
        ap (λ q. lv.orders ++ q) (no_queue s p ls (subst (λ q. Prices (Ahead s q) ls) same h))
        ∙ append-nil lv.orders)
  | inr e ↦ rw e refl
]

pub picks-ladder :
    (s : Side) (p : ℕ) (ls : List Level)
    → IsLadder s ls
    → picks s p (level_orders ls) ≡ queue_at p ls
picks-ladder s p [] h = refl
picks-ladder s p (lv ∷ ls) h =
    picks-append s p lv.orders (level_orders ls)
    ∙ ap (λ q. q ++ picks s p (level_orders ls)) (picks_level s p lv.price lv.orders h.1)
    ∙ ap (λ q. (if lv.price == p then lv.orders else []) ++ q) (picks-ladder s p ls h.3)
    ∙ level_first s p lv ls h.2

pub picks-opposite_ladder :
    (s t : Side) (p : ℕ) (ls : List Level)
    → is_side s t ≡ false
    → IsLadder t ls
    → picks s p (level_orders ls) ≡ []
picks-opposite_ladder s t p [] n h = refl
picks-opposite_ladder s t p (lv ∷ ls) n h =
    picks-append s p lv.orders (level_orders ls)
    ∙ ap (λ q. q ++ picks s p (level_orders ls)) (picks_opposite s t p lv.price lv.orders n h.1)
    ∙ picks-opposite_ladder s t p ls n h.3

-- An order as it rests, wherever it does.
abbrev pub Rests : Order → Type 0
Rests o = IsResting o.side o.limit_price o

pub ladder-Rests : (s : Side) (ls : List Level) → IsLadder s ls → All Rests (level_orders ls)
ladder-Rests s [] h = tt
ladder-Rests s (lv ∷ ls) h =
    All-append Rests lv.orders (level_orders ls)
      (All-map lv.orders
        (λ (o : Order) r. record {
          on_side = refl;
          at_price = refl;
          is_limit = r.is_limit;
          open_qty = r.open_qty;
        })
        h.1)
      (ladder-Rests s ls h.3)

pub side_of-by_id :
    (s : Side) (b : Book) (d : Dict Order) → side_of s (record b { by_id = d }) ≡ side_of s b
side_of-by_id Side.buy b d = refl
side_of-by_id Side.sell b d = refl

pub side_of-with_side :
    (s t : Side) (b : Book) (ls : List Level)
    → side_of s (with_side t b ls) ≡ (if is_side s t then ls else side_of s b)
side_of-with_side Side.buy Side.buy b ls = refl
side_of-with_side Side.buy Side.sell b ls = refl
side_of-with_side Side.sell Side.buy b ls = refl
side_of-with_side Side.sell Side.sell b ls = refl

pub side_of-remember : (s : Side) (b : Book) (id : Uuid) → side_of s (remember b id) ≡ side_of s b
unfolding remember
side_of-remember Side.buy b id = elim (Bool-cases (contains id b.dedup_set)) [
  | inl e ↦ rw e refl
  | inr e ↦ rw e refl
]
side_of-remember Side.sell b id = elim (Bool-cases (contains id b.dedup_set)) [
  | inl e ↦ rw e refl
  | inr e ↦ rw e refl
]
