-- ===== src/Engine/Replay/Same.antt =====
-- States of internal/engine/replay.go that no lookup tells apart: a Go map is its lookups.
use trade_execution_operatin.Common.{
  ◌≡◌, refl, sym, ap, ◌∙◌, List, [], ◌∷◌, Option, none, some, Bool, true, false, Bool-cases, inl,
  inr, if◌then◌else◌, ◌==◌,
}
use trade_execution_operatin.Common.Int.{ℤ}
use trade_execution_operatin.Common.Int64.{add64}
use trade_execution_operatin.Common.NameMap.{NameMap, put, find, find-put}
use trade_execution_operatin.Common.Names.{name_eq}
use trade_execution_operatin.Money.{Minor, Qty}
use trade_execution_operatin.Book.{Uuid, Name}
use trade_execution_operatin.Engine.Db.{Db}
use trade_execution_operatin.Engine.Position.{PositionState, apply}
use trade_execution_operatin.Engine.Replay.{
  ReplayState, TxnLegs, ReplayRow, or_zero, position_of, apply_deltas, flush, add_leg, new_legs,
  replay_rows, replay_account_range,
}

abbrev pub SamePositions : NameMap PositionState → NameMap PositionState → Type 0
SamePositions m n = (x : Name) → position_of x m ≡ position_of x n

pub record Same (s t : ReplayState) : Type 0 where
  pub seq : s.seq ≡ t.seq
  pub cash : s.cash ≡ t.cash
  pub fees : s.fees ≡ t.fees
  pub clearing : s.clearing ≡ t.clearing
  pub positions : SamePositions s.positions t.positions

pub Same_refl : (s : ReplayState) → Same s s
Same_refl s = record {
  seq = refl;
  cash = refl;
  fees = refl;
  clearing = refl;
  positions = λ x. refl;
}

pub Same_sym : {s t : ReplayState} → Same s t → Same t s
Same_sym h = record {
  seq = sym h.seq;
  cash = sym h.cash;
  fees = sym h.fees;
  clearing = sym h.clearing;
  positions = λ x. sym (h.positions x);
}

pub Same_trans : {s t u : ReplayState} → Same s t → Same t u → Same s u
Same_trans h k = record {
  seq = h.seq ∙ k.seq;
  cash = h.cash ∙ k.cash;
  fees = h.fees ∙ k.fees;
  clearing = h.clearing ∙ k.clearing;
  positions = λ x. h.positions x ∙ k.positions x;
}

or_zero_if :
    (b : Bool) (p : PositionState) (o : Option PositionState)
    → or_zero (if b then some p else o) ≡ (if b then p else or_zero o)
or_zero_if true p o = refl
or_zero_if false p o = refl

pub position_of-put :
    (x k : Name) (p : PositionState) (m : NameMap PositionState)
    → position_of x (put k p m) ≡ (if name_eq x k then p else position_of x m)
position_of-put x k p m = ap or_zero (find-put x k p m) ∙ or_zero_if (name_eq x k) p (find x m)

apply_deltas-Same :
    (cash : Minor) (ds : NameMap Qty) (m n : NameMap PositionState)
    → SamePositions m n
    → SamePositions (apply_deltas cash ds m) (apply_deltas cash ds n)
unfolding apply_deltas
apply_deltas-Same cash [] m n h = h
apply_deltas-Same cash (d ∷ ds) m n h = apply_deltas-Same cash ds _ _ λ x.
    position_of-put x d.0 (apply (position_of d.0 m) d.1 cash) m
    ∙ rw (h x, h d.0) refl
    ∙ sym (position_of-put x d.0 (apply (position_of d.0 n) d.1 cash) n)

flush-Same :
    (t : TxnLegs) (s u : ReplayState) → Same s u → Same (flush (some t) s) (flush (some t) u)
unfolding flush
flush-Same t s u h = record {
  seq = refl;
  cash = ap (λ c. add64 c t.cash) h.cash;
  fees = ap (λ c. add64 c t.fees) h.fees;
  clearing = ap (λ c. add64 c t.clearing) h.clearing;
  positions = apply_deltas-Same t.cash t.positions s.positions u.positions h.positions;
}

replay_rows-Same :
    (rs : List ReplayRow) (current : Option TxnLegs) (s u : ReplayState)
    → Same s u
    → Same (replay_rows rs current s) (replay_rows rs current u)
unfolding replay_rows flush
replay_rows-Same [] none s u h = h
replay_rows-Same [] (some t) s u h = flush-Same t s u h
replay_rows-Same (r ∷ rs) none s u h = replay_rows-Same rs (some (add_leg r (new_legs r.seq))) s u h
replay_rows-Same (r ∷ rs) (some t) s u h = elim (Bool-cases (t.seq == r.seq)) [
  | inl e ↦ rw e (replay_rows-Same rs (some (add_leg r t)) s u h)
  | inr e ↦ rw e (replay_rows-Same rs (some (add_leg r (new_legs r.seq))) _ _ (flush-Same t s u h))
]

-- A replay from states that agree ends in states that agree.
pub replay_account_range-Same :
    (db : Db) (account : Uuid) (from to : ℤ) (s u : ReplayState)
    → Same s u
    → Same (replay_account_range db account from to s) (replay_account_range db account from to u)
unfolding replay_account_range
replay_account_range-Same db account from to s u h = replay_rows-Same _ none s u h
