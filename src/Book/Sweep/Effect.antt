-- ===== src/Book/Sweep/Effect.antt =====
-- What the matching loop of Submit does to the quantities, the fills and the counters.
use mathlib.Core.Path.{subst}
use trade_execution_operatin.Common.{
  ℕ, ◌+◌, ◌<◌, ◌≡◌, refl, sym, true, some, List, [], ◌∷◌, ◌++◌, arith, All, All-append, ap,
}
use trade_execution_operatin.Book.{Side, Order, Fill, Level, Book, crosses, next_u64}
use trade_execution_operatin.Book.Levels.{keep_level, queue_qty, side_qty}
use trade_execution_operatin.Book.Levels.Ladder.{
  IsLadder, Prices, Prices-zip, Prices-all, Ahead, NotWorse, NotWorse-refl, Ahead-NotWorse,
}
use trade_execution_operatin.Book.Sweep.{Sweep, Round, min, make_fill, trade, round, sweep}
use trade_execution_operatin.Book.Sweep.Loop.{Traded, Traded-IsLadder, trade-Prices, sweep_inv}

-- The quantity that a list of fills executes.
abbrev pub fills_qty : List Fill → ℕ
fills_qty [] = 0
fills_qty (f ∷ fs) = f.qty + fills_qty fs

-- The fills carry consecutive numbers, from the one after `n` to `m`.
abbrev pub Numbered : ℕ → List Fill → ℕ → Type 0
Numbered n [] m = n ≡ m
Numbered n (f ∷ fs) m = (f.book_seq ≡ next_u64 n) × Numbered (next_u64 n) fs m

-- The fill is the taker's, has a quantity, and lies inside its limit or collar.
pub record IsFillOf (b : Book) (o : Order) (f : Fill) : Type 0 where
  pub positive : 0 < f.qty
  pub inside : crosses b.collar_bps o f.price ≡ true
  pub taker : f.taker_order ≡ o.id
  pub account : f.taker_account ≡ o.account
  pub side : f.taker_side ≡ o.side

fills_qty-snoc : (fs : List Fill) (f : Fill) → fills_qty (fs ++ f ∷ []) ≡ fills_qty fs + f.qty
fills_qty-snoc [] f = omega arith
fills_qty-snoc (g ∷ fs) f = omega (arith, fills_qty-snoc fs f)

Numbered-snoc :
    (n m : ℕ) (fs : List Fill) (f : Fill)
    → Numbered n fs m
    → f.book_seq ≡ next_u64 m
    → Numbered n (fs ++ f ∷ []) (next_u64 m)
Numbered-snoc n m [] f h e = ground arith
Numbered-snoc n m (g ∷ fs) f h e = (h.0, Numbered-snoc (next_u64 n) m fs f h.1 e)

side_qty-keep_level :
    (p : ℕ) (os : List Order) (ls : List Level)
    → side_qty (keep_level p os ls) ≡ queue_qty os + side_qty ls
side_qty-keep_level p [] ls = omega arith
side_qty-keep_level p (o ∷ os) ls = refl

-- The prices of the fills go from the best to the worst, for a maker side.
abbrev pub BestFirst : Side → List Fill → Type 0
BestFirst side [] = Unit
BestFirst side (f ∷ fs) = All (λ g. NotWorse side f.price g.price) fs × BestFirst side fs

-- Every fill so far was at a price at least as good as `q`.
abbrev pub Before : Side → List Fill → ℕ → Type 0
Before side fs q = All (λ f. NotWorse side f.price q) fs

BestFirst-snoc :
    (side : Side) (fs : List Fill) (g : Fill)
    → BestFirst side fs
    → Before side fs g.price
    → BestFirst side (fs ++ g ∷ [])
BestFirst-snoc side [] g h k = (tt, tt)
BestFirst-snoc side (f ∷ fs) g h k = (
  All-append (λ x. NotWorse side f.price x.price) fs (g ∷ []) h.0 (k.0, tt),
  BestFirst-snoc side fs g h.1 k.1,
)

module _ (b : Book) (o : Order) (side : Side) where
  -- Between the start of the loop and any later round.
  pub record Effect (s₀ s : Sweep) : Type 0 where
    pub ladder : IsLadder side s.levels
    pub taker_side : fills_qty s.fills + s.remaining ≡ s₀.remaining
    pub maker_side : fills_qty s.fills + side_qty s.levels ≡ side_qty s₀.levels
    pub each : All (IsFillOf b o) s.fills
    pub numbered : Numbered s₀.book_seq s.fills s.book_seq
    pub best_first : BestFirst side s.fills
    pub frontier : Prices (Before side s.fills) s.levels

  module _ (s₀ s : Sweep) (p : ℕ) (maker : Order) (queue : List Order) (ls : List Level) where
    trade-quantities :
        s.levels ≡ record { price = p; orders = maker ∷ queue } ∷ ls
        → fills_qty s.fills + s.remaining ≡ s₀.remaining
        → fills_qty s.fills + side_qty s.levels ≡ side_qty s₀.levels
        → let s' = trade b o s p maker queue ls in
          (fills_qty s'.fills + s'.remaining ≡ s₀.remaining)
          × (fills_qty s'.fills + side_qty s'.levels ≡ side_qty s₀.levels)
    unfolding trade
    trade-quantities e taker book =
        let size : side_qty s.levels ≡ maker.remaining + queue_qty queue + side_qty ls =
          ap side_qty e in
        let qty = min s.remaining maker.remaining in
        let fill = make_fill b o maker (next_u64 s.book_seq) p qty in
        ground (arith, side_qty-keep_level p queue ls, fills_qty-snoc s.fills fill)

    trade-frontier :
        Prices (Before side s.fills) (record { price = p; orders = maker ∷ queue } ∷ ls)
        → Prices (Ahead side p) ls
        → let s' = trade b o s p maker queue ls in Prices (Before side s'.fills) s'.levels
    unfolding trade
    trade-frontier h k =
        let fill = make_fill b o maker (next_u64 s.book_seq) p (min s.remaining maker.remaining) in
        let fs = s.fills ++ fill ∷ [] in
        let more : (q : ℕ) → Before side s.fills q → NotWorse side p q → Before side fs q =
          λ q u v. All-append (λ f. NotWorse side f.price q) s.fills (fill ∷ []) u (v, tt) in
        trade-Prices b o s p maker queue ls (Before side fs) (more p h.0 (NotWorse-refl side p))
          (Prices-zip ls (λ q u v. more q u (Ahead-NotWorse side p q v)) h.1 k)

    trade-Effect :
        s.levels ≡ record { price = p; orders = maker ∷ queue } ∷ ls
        → 0 < s.remaining
        → crosses b.collar_bps o p ≡ true
        → Effect s₀ s
        → IsLadder side (trade b o s p maker queue ls).levels
        → Effect s₀ (trade b o s p maker queue ls)
    trade-Effect e pos on i ladder' =
        let old = subst (IsLadder side) e i.ladder in
        let front = subst (Prices (Before side s.fills)) e i.frontier in
        let sums = trade-quantities e i.taker_side i.maker_side in
        let open_maker = old.1.0.open_qty in
        let fill = make_fill b o maker (next_u64 s.book_seq) p (min s.remaining maker.remaining) in
        unfold trade in
        record {
          ladder = ladder';
          taker_side = sums.0;
          maker_side = sums.1;
          each = All-append (IsFillOf b o) s.fills (fill ∷ []) i.each (
            record {
              positive = ground arith;
              inside = on;
              taker = refl;
              account = refl;
              side = refl;
            },
            tt,
          );
          numbered = Numbered-snoc s₀.book_seq s.book_seq s.fills fill i.numbered refl;
          best_first = BestFirst-snoc side s.fills fill i.best_first front.0;
          frontier = trade-frontier front old.2;
        }

  Traded-Effect : (s₀ s s' : Sweep) → Traded b o s s' → Effect s₀ s → Effect s₀ s'
  Traded-Effect s₀ s s' t i =
      let ladder' = Traded-IsLadder side b o s s' t i.ladder in
      subst (Effect s₀) (sym t.result) (
        trade-Effect s₀ s t.price t.maker t.queue t.rest t.at_head t.taker_open t.crossing i
          (subst (λ r. IsLadder side r.levels) t.result ladder'))

  -- The loop from a start with no fill: what it has done when it ends, and that its test has failed.
  pub sweep-Effect :
      (f : ℕ) (s₀ s : Sweep)
      → sweep f b o s₀ ≡ some s
      → s₀.fills ≡ []
      → IsLadder side s₀.levels
      → Effect s₀ s × (round b o s ≡ Round.done)
  sweep-Effect f s₀ s e empty h = sweep_inv b o (Effect s₀) (Traded-Effect s₀) f s₀ s e (record {
    ladder = h;
    taker_side = rw empty (omega arith);
    maker_side = rw empty (omega arith);
    each = subst (All (IsFillOf b o)) (sym empty) tt;
    numbered = subst (λ fs. Numbered s₀.book_seq fs s₀.book_seq) (sym empty) refl;
    best_first = subst (BestFirst side) (sym empty) tt;
    frontier = Prices-all s₀.levels (λ p. subst (λ fs. Before side fs p) (sym empty) tt);
  })
