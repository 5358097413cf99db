-- ===== src/Book/Sweep/Loop.antt =====
-- Reasoning about the matching loop: one round, an invariant rule, and termination.
use mathlib.Core.Path.{subst}
use trade_execution_operatin.Common.{
  ℕ, zero, suc, ◌-◌, ◌<◌, ◌≡◌, refl, sym, true, some, List, [], ◌∷◌, ◌==◌, arith, Bool-cases, inl,
  inr, ◌⊎◌,
}
use trade_execution_operatin.Book.{Side, Order, Level, Book, crosses}
use trade_execution_operatin.Book.Levels.{keep_level}
use trade_execution_operatin.Book.Levels.Ladder.{
  IsLadder, Prices, keep_level-Prices, keep_level-IsLadder,
}
use trade_execution_operatin.Book.Sweep.{
  Sweep, Round, min, trade, trade_best, at_best, round, sweep,
}

-- What a round that trades has found.
pub record Traded (b : Book) (o : Order) (s s' : Sweep) : Type 0 where
  pub price : ℕ
  pub maker : Order
  pub queue : List Order
  pub rest : List Level
  pub at_head : s.levels ≡ record { price = price; orders = maker ∷ queue } ∷ rest
  pub taker_open : 0 < s.remaining
  pub crossing : crosses b.collar_bps o price ≡ true
  pub result : s' ≡ trade b o s price maker queue rest

trade_best_inv :
    (b : Book) (o : Order) (s s' : Sweep) (p : ℕ) (os : List Order) (ls : List Level)
    → s.levels ≡ record { price = p; orders = os } ∷ ls
    → 0 < s.remaining
    → crosses b.collar_bps o p ≡ true
    → trade_best b o s p os ls ≡ Round.traded s'
    → Traded b o s s'
unfolding trade_best
trade_best_inv b o s s' p [] ls e pos on h = cc
trade_best_inv b o s s' p (maker ∷ queue) ls e pos on h = record {
  price = p;
  maker = maker;
  queue = queue;
  rest = ls;
  at_head = e;
  taker_open = pos;
  crossing = on;
  result = cc;
}

at_best_inv :
    (b : Book) (o : Order) (s s' : Sweep) (ls : List Level)
    → s.levels ≡ ls
    → 0 < s.remaining
    → at_best b o s ls ≡ Round.traded s'
    → Traded b o s s'
unfolding at_best
at_best_inv b o s s' [] e pos h = cc
at_best_inv b o s s' (lv ∷ ls) e pos h = elim (Bool-cases (crosses b.collar_bps o lv.price)) [
  | inr off ↦ absurd (ground arith)
  | inl on ↦ trade_best_inv b o s s' lv.price lv.orders ls e pos on (ground arith)
]

pub round_inv :
    (b : Book) (o : Order) (s s' : Sweep) → round b o s ≡ Round.traded s' → Traded b o s s'
unfolding round
round_inv b o s s' h = elim (Bool-cases (s.remaining == 0)) [
  | inl used ↦ absurd (ground arith)
  | inr more ↦ at_best_inv b o s s' s.levels refl (ground arith) (ground arith)
]

pub Round-cases :
    (r : Round) → (r ≡ Round.done) ⊎ (r ≡ Round.panic) ⊎ ((s : Sweep) × (r ≡ Round.traded s))
Round-cases Round.done = inl refl
Round-cases Round.panic = inr (inl refl)
Round-cases (Round.traded s) = inr (inr (s, refl))

-- The loop ends by its own test, with whatever each trade preserves.
module _ (b : Book) (o : Order) (I : Sweep → Type 0)
    (keep : (s s' : Sweep) → Traded b o s s' → I s → I s') where
  pub sweep_inv :
      (f : ℕ) (s s' : Sweep) → sweep f b o s ≡ some s' → I s → I s' × (round b o s' ≡ Round.done)
  unfolding sweep
  sweep_inv zero s s' e h = cc
  sweep_inv (suc f) s s' e h = elim (Round-cases (round b o s)) [
    | inl ends ↦
        let same : s ≡ s' = ground arith in
        subst (λ t. I t × (round b o t ≡ Round.done)) same (h, ends)
    | inr (inl fails) ↦ absurd (ground arith)
    | inr (inr (t, trades)) ↦
        sweep_inv f t s' (ground arith) (keep s t (round_inv b o s t trades) h)
  ]

-- The quantity of the fill, and what it leaves of the maker.
abbrev pub left_of : Sweep → Order → ℕ
left_of s maker = maker.remaining - min s.remaining maker.remaining

module _ (b : Book) (o : Order) (s : Sweep) (p : ℕ) (maker : Order) (queue : List Order)
    (ls : List Level) where
  abbrev pub next : Sweep
  next = trade b o s p maker queue ls

  abbrev pub left : ℕ
  left = left_of s maker

  pub trade-levels :
      ((left ≡ 0) × (next.levels ≡ keep_level p queue ls))
      ⊎ ((0 < left)
          × (next.levels
              ≡ record { price = p; orders = record maker { remaining = left } ∷ queue } ∷ ls))
  unfolding trade
  trade-levels = elim (Bool-cases (left == 0)) [
    | inl used ↦ inl (ground arith, rw used)
    | inr more ↦ inr (ground arith, rw more)
  ]

  pub trade-Prices : (P : ℕ → Type 0) → P p → Prices P ls → Prices P next.levels
  trade-Prices P h k = elim trade-levels [
    | inl (_, e) ↦ subst (Prices P) (sym e) (keep_level-Prices P p queue ls h k)
    | inr (_, e) ↦ subst (Prices P) (sym e) (h, k)
  ]

  trade-IsLadder :
      (side : Side)
      → IsLadder side (record { price = p; orders = maker ∷ queue } ∷ ls)
      → IsLadder side next.levels
  trade-IsLadder side h = elim trade-levels [
    | inl (_, e) ↦ subst (IsLadder side) (sym e) (keep_level-IsLadder side p queue ls h.1.1 h.2 h.3)
    | inr (more, e) ↦
        let m = h.1.0 in
        subst (IsLadder side) (sym e) (
          omega arith,
          (
            record {
              on_side = m.on_side;
              at_price = m.at_price;
              is_limit = m.is_limit;
              open_qty = more;
            },
            h.1.1,
          ),
          h.2,
          h.3,
        )
  ]

-- A trade leaves the prices and the shape of the side.
pub Traded-Prices :
    (P : ℕ → Type 0) (b : Book) (o : Order) (s s' : Sweep)
    → Traded b o s s'
    → Prices P s.levels
    → Prices P s'.levels
Traded-Prices P b o s s' t h =
    let k = subst (Prices P) t.at_head h in
    subst (λ r. Prices P r.levels) (sym t.result)
      (trade-Prices b o s t.price t.maker t.queue t.rest P k.0 k.1)

pub Traded-IsLadder :
    (side : Side) (b : Book) (o : Order) (s s' : Sweep)
    → Traded b o s s'
    → IsLadder side s.levels
    → IsLadder side s'.levels
Traded-IsLadder side b o s s' t h =
    subst (λ r. IsLadder side r.levels) (sym t.result)
      (trade-IsLadder b o s t.price t.maker t.queue t.rest side (subst (IsLadder side) t.at_head h))
