-- ===== src/Book/Sweep/Total.antt =====
-- The matching loop ends: a round takes a maker away or uses the taker up, and a well-formed side
-- gives it no empty queue to panic on.
use mathlib.Core.Path.{subst}
use trade_execution_operatin.Common.{
  ℕ, zero, suc, ◌+◌, ◌<◌, ◌≡◌, refl, sym, some, List, [], ◌∷◌, ◌==◌, if◌then◌else◌, arith, length,
  inl, inr, ap,
}
use trade_execution_operatin.Book.{Side, Order, Level, Book}
use trade_execution_operatin.Book.Levels.{keep_level}
use trade_execution_operatin.Book.Levels.Ladder.{IsLadder}
use trade_execution_operatin.Book.Sweep.{
  Sweep, Round, trade, trade_best, at_best, round, sweep, side_len, fuel_of,
}
use trade_execution_operatin.Book.Sweep.Loop.{Traded, Round-cases, round_inv, Traded-IsLadder}

-- How many rounds are left at most.
abbrev rounds_left : Sweep → ℕ
rounds_left s = if s.remaining == 0 then 0 else side_len s.levels + 1

side_len-keep_level :
    (p : ℕ) (os : List Order) (ls : List Level)
    → side_len (keep_level p os ls) ≡ length os + side_len ls
side_len-keep_level p [] ls = omega arith
side_len-keep_level p (o ∷ os) ls = refl

trade-rounds_left :
    (b : Book) (o : Order) (s : Sweep) (p : ℕ) (maker : Order) (queue : List Order)
    (ls : List Level)
    → 0 < s.remaining
    → s.levels ≡ record { price = p; orders = maker ∷ queue } ∷ ls
    → rounds_left (trade b o s p maker queue ls) < rounds_left s
unfolding trade
trade-rounds_left b o s p maker queue ls pos e =
    let size : side_len s.levels ≡ suc (length queue) + side_len ls = ap side_len e in
    ground (arith, side_len-keep_level p queue ls)

Traded-rounds_left :
    (b : Book) (o : Order) (s s' : Sweep) → Traded b o s s' → rounds_left s' < rounds_left s
Traded-rounds_left b o s s' t =
    subst (λ r. rounds_left r < rounds_left s) (sym t.result)
      (trade-rounds_left b o s t.price t.maker t.queue t.rest t.taker_open t.at_head)

at_best-no_panic :
    (side : Side) (b : Book) (o : Order) (s : Sweep) (ls : List Level)
    → IsLadder side ls
    → at_best b o s ls ≡ Round.panic
    → ⊥
unfolding at_best trade_best
at_best-no_panic side b o s [] h e = cc
at_best-no_panic side b o s (lv ∷ ls) h e = ground arith

-- With fuel above the rounds left, a sorted side with no empty level gives a result.
sweep_total_from :
    (side : Side) (f : ℕ) (b : Book) (o : Order) (s : Sweep)
    → IsLadder side s.levels
    → rounds_left s < f
    → (s' : Sweep) × (sweep f b o s ≡ some s')
unfolding sweep
sweep_total_from side zero b o s h m = absurd (omega arith)
sweep_total_from side (suc f) b o s h m = elim (Round-cases (round b o s)) [
  | inl ends ↦ (s, ground arith)
  | inr (inl fails) ↦
      absurd (unfold round in ground (arith, at_best-no_panic side b o s s.levels h))
  | inr (inr (t, trades)) ↦
      let step = round_inv b o s t trades in
      let (s', e) =
        sweep_total_from side f b o t (Traded-IsLadder side b o s t step h)
          (omega (arith, Traded-rounds_left b o s t step)) in
      (s', ground arith)
]

-- On a sorted side with no empty level, the loop of Submit ends.
pub sweep_total :
    (side : Side) (b : Book) (o : Order) (s : Sweep)
    → IsLadder side s.levels
    → (s' : Sweep) × (sweep (fuel_of s) b o s ≡ some s')
sweep_total side b o s h = sweep_total_from side (fuel_of s) b o s h (ground arith)
