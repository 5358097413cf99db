-- ===== src/Book/Snapshot/Queues.antt =====
-- A side of the book as the queue of each price: internal/book/book.go.
use mathlib.Core.Path.{subst}
use trade_execution_operatin.Common.{
  ℕ, ◌<◌, ◌≡◌, refl, sym, ap, ◌∙◌, Bool, true, false, List, [], ◌∷◌, ◌++◌, ◌==◌, ==_iff,
  if◌then◌else◌, Bool-cases, inl, inr, ◌⊎◌, arith, length, ltb,
}
use trade_execution_operatin.Book.{Side, Order, Level}
use trade_execution_operatin.Book.Levels.{at_or_behind, insert_order}
use trade_execution_operatin.Book.Levels.Ladder.{
  Ahead, Prices, IsLadder, Prices-map, Ahead-trans, Ahead-of_behind, Ahead-of_later,
}

abbrev pub queue_at : ℕ → List Level → List Order
queue_at p [] = []
queue_at p (lv ∷ ls) = let later = queue_at p ls in if lv.price == p then lv.orders else later

-- No level at a price that is strictly ahead of all.
pub no_queue : (s : Side) (p : ℕ) (ls : List Level) → Prices (Ahead s p) ls → queue_at p ls ≡ []
no_queue s p [] h = refl
no_queue s p (lv ∷ ls) h =
    let other : (lv.price == p) ≡ false = not_ahead s p lv.price h.0 in
    rw other (no_queue s p ls h.1)
  where
    not_ahead : (s : Side) (p q : ℕ) → Ahead s p q → (q == p) ≡ false
    not_ahead Side.buy p q h = ground arith
    not_ahead Side.sell p q h = ground arith

module _ (q os : List Order) (o : Order) where
  joins :
      (a b : Bool)
      → a ≡ b
      → (if a then os ++ o ∷ [] else q)
        ≡ (if b then (if a then os else q) ++ o ∷ [] else (if a then os else q))
  joins true b e = rw (← e) refl
  joins false b e = rw (← e) refl

  passes :
      (a b : Bool)
      → (a ≡ true → b ≡ false)
      → (if a then os else (if b then q ++ o ∷ [] else q))
        ≡ (if b then (if a then os else q) ++ o ∷ [] else (if a then os else q))
  passes true b n = rw (n refl) refl
  passes false b n = refl

opened :
    (q : List Order) (o : Order) (b : Bool)
    → (b ≡ true → q ≡ [])
    → (if b then o ∷ [] else q) ≡ (if b then q ++ o ∷ [] else q)
opened q o true n = rw (n refl) refl
opened q o false n = refl

apart : (s : Side) (p q r : ℕ) → Ahead s p q → (p == r) ≡ true → (q == r) ≡ false
apart Side.buy p q r h e = ground arith
apart Side.sell p q r h e = ground arith

-- Resting an order appends it to the queue of its price and touches no other.
pub queue_at-insert_order :
    (s : Side) (o : Order) (ls : List Level) (p : ℕ)
    → IsLadder s ls
    → queue_at p (insert_order s o ls)
      ≡ (if o.limit_price == p then queue_at p ls ++ o ∷ [] else queue_at p ls)
unfolding insert_order
queue_at-insert_order s o [] p h = refl
queue_at-insert_order s o (lv ∷ ls) p h =
    elim (Bool-cases (at_or_behind s lv.price o.limit_price)) [
      | inl here ↦ elim (Bool-cases (lv.price == o.limit_price)) [
        | inl same ↦
            let e = (==_iff lv.price o.limit_price).0 same in
            rw (here, same)
              (joins (queue_at p ls) lv.orders o (lv.price == p) (o.limit_price == p)
                (ap (λ q. q == p) e))
        | inr new ↦
            let ahead = Ahead-of_behind s lv.price o.limit_price here new in
            rw (here, new)
              (opened (queue_at p (lv ∷ ls)) o (o.limit_price == p) λ at. no_queue s p (lv ∷ ls) (
                subst (λ q. Prices (Ahead s q) (lv ∷ ls)) ((==_iff o.limit_price p).0 at)
                  (ahead, Prices-map ls (λ q. Ahead-trans s _ _ q ahead) h.2)))
      ]
      | inr later ↦
          let ahead = Ahead-of_later s lv.price o.limit_price later in
          rw (later, queue_at-insert_order s o ls p h.3)
            (passes (queue_at p ls) lv.orders o (lv.price == p) (o.limit_price == p)
              (apart s lv.price o.limit_price p ahead))
    ]

at_head : (lv : Level) (ls : List Level) → queue_at lv.price (lv ∷ ls) ≡ lv.orders
at_head lv ls = let e : (lv.price == lv.price) ≡ true = ground arith in rw e refl

nil_or_cons : (os : List Order) → 0 < length os → os ≡ [] → ⊥
nil_or_cons [] h e = elim h [ ]
nil_or_cons (o ∷ os) h e = cc

-- Two sides whose first queues are not empty start at one price, if their queues agree.
price_order : (s : Side) (p q : ℕ) → (p ≡ q) ⊎ (Ahead s p q ⊎ Ahead s q p)
price_order s p q = elim (Bool-cases (p == q)) [
  | inl e ↦ inl ((==_iff p q).0 e)
  | inr e ↦ inr (differs s p q e)
]
  where
    differs : (s : Side) (p q : ℕ) → (p == q) ≡ false → Ahead s p q ⊎ Ahead s q p
    differs Side.buy p q e = elim (Bool-cases (ltb q p)) [
      | inl l ↦ inl (ground arith)
      | inr l ↦ inr (ground arith)
    ]
    differs Side.sell p q e = elim (Bool-cases (ltb p q)) [
      | inl l ↦ inl (ground arith)
      | inr l ↦ inr (ground arith)
    ]

not_below :
    (s : Side) (x y : Level) (xs ys : List Level)
    → IsLadder s (x ∷ xs)
    → IsLadder s (y ∷ ys)
    → queue_at x.price (x ∷ xs) ≡ queue_at x.price (y ∷ ys)
    → Ahead s x.price y.price
    → ⊥
not_below s x y xs ys h k e ahead = nil_or_cons x.orders h.0 (
    sym (at_head x xs)
    ∙ e
    ∙ no_queue s x.price (y ∷ ys) (ahead, Prices-map ys (λ q. Ahead-trans s _ _ q ahead) k.2))

heads_agree :
    (s : Side) (x y : Level) (xs ys : List Level)
    → IsLadder s (x ∷ xs)
    → IsLadder s (y ∷ ys)
    → ((p : ℕ) → queue_at p (x ∷ xs) ≡ queue_at p (y ∷ ys))
    → x.price ≡ y.price
heads_agree s x y xs ys h k e = elim (price_order s x.price y.price) [
  | inl same ↦ same
  | inr (inl l) ↦ absurd (not_below s x y xs ys h k (e x.price) l)
  | inr (inr g) ↦ absurd (not_below s y x ys xs k h (sym (e y.price)) g)
]

later_price : (p q : ℕ) (os ls : List Order) → (q == p) ≡ false → (if q == p then os else ls) ≡ ls
later_price p q os ls e = rw e refl

tails_agree :
    (s : Side) (x y : Level) (xs ys : List Level)
    → IsLadder s (x ∷ xs)
    → IsLadder s (y ∷ ys)
    → ((p : ℕ) → queue_at p (x ∷ xs) ≡ queue_at p (y ∷ ys))
    → x.price ≡ y.price
    → (p : ℕ) → queue_at p xs ≡ queue_at p ys
tails_agree s x y xs ys h k e same p = elim (Bool-cases (x.price == p)) [
  | inl here ↦
      let ex = (==_iff x.price p).0 here in
      no_queue s p xs (subst (λ q. Prices (Ahead s q) xs) ex h.2)
      ∙ sym (no_queue s p ys (subst (λ q. Prices (Ahead s q) ys) (sym same ∙ ex) k.2))
  | inr away ↦
      sym (later_price p x.price x.orders (queue_at p xs) away)
      ∙ e p
      ∙ later_price p y.price y.orders (queue_at p ys) (ap (λ q. q == p) (sym same) ∙ away)
]

-- A ladder is determined by the queue at each price.
pub IsLadder-queues :
    (s : Side) (xs ys : List Level)
    → IsLadder s xs
    → IsLadder s ys
    → ((p : ℕ) → queue_at p xs ≡ queue_at p ys)
    → xs ≡ ys
IsLadder-queues s [] [] h k e = refl
IsLadder-queues s [] (y ∷ ys) h k e =
    absurd (nil_or_cons y.orders k.0 (sym (at_head y ys) ∙ sym (e y.price)))
IsLadder-queues s (x ∷ xs) [] h k e =
    absurd (nil_or_cons x.orders h.0 (sym (at_head x xs) ∙ e x.price))
IsLadder-queues s (x ∷ xs) (y ∷ ys) h k e =
    let same = heads_agree s x y xs ys h k e in
    let orders =
      sym (at_head x xs) ∙ e x.price ∙ ap (λ q. queue_at q (y ∷ ys)) same ∙ at_head y ys in
    let tails = IsLadder-queues s xs ys h.3 k.3 (tails_agree s x y xs ys h k e same) in
    ap (λ ls. x ∷ ls) tails ∙ ap (λ lv. lv ∷ ys) (same_level x y same orders)
  where
    same_level : (x y : Level) → x.price ≡ y.price → x.orders ≡ y.orders → x ≡ y
    same_level x y p o = cc
