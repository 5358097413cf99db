-- ===== src/Engine/Replay/Format/Symbols.antt =====
-- The symbols that Encode of internal/engine/replay.go writes: which they are, and their order.
use trade_execution_operatin.Common.{
  ◌≤◌, ◌≡◌, refl, ap, ◌∙◌, List, [], ◌∷◌, arith, Bool, true, false, ◌||◌, Bool-cases, inl, inr,
  length, All, suc,
}
use trade_execution_operatin.Common.NameMap.{NameMap, find}
use trade_execution_operatin.Common.Names.{name_eq, name_ltb}
use trade_execution_operatin.Book.{Name}
use trade_execution_operatin.Engine.Position.{PositionState}
use trade_execution_operatin.Engine.Replay.{position_of, no_position}
use trade_execution_operatin.Engine.Replay.Format.{is_empty, held, insert_sorted, sort}

abbrev pub is_in : Name → List Name → Bool
is_in x [] = false
is_in x (y ∷ ys) = name_eq x y || is_in x ys

swapped : (a b c : Bool) → (a || (b || c)) ≡ (b || (a || c))
swapped a b c = ground arith

is_in-insert_sorted :
    (x y : Name) (ys : List Name) → is_in x (insert_sorted y ys) ≡ (name_eq x y || is_in x ys)
unfolding insert_sorted
is_in-insert_sorted x y [] = refl
is_in-insert_sorted x y (z ∷ ys) = elim (Bool-cases (name_ltb z y)) [
  | inl e ↦ rw (e, is_in-insert_sorted x y ys) (swapped (name_eq x z) (name_eq x y) (is_in x ys))
  | inr e ↦ rw e refl
]

pub is_in-sort : (x : Name) (ys : List Name) → is_in x (sort ys) ≡ is_in x ys
unfolding sort
is_in-sort x [] = refl
is_in-sort x (y ∷ ys) =
    is_in-insert_sorted x y (sort ys) ∙ ap (λ b. name_eq x y || b) (is_in-sort x ys)

length-insert_sorted : (y : Name) (ys : List Name) → length (insert_sorted y ys) ≡ suc (length ys)
unfolding insert_sorted
length-insert_sorted y [] = refl
length-insert_sorted y (z ∷ ys) = elim (Bool-cases (name_ltb z y)) [
  | inl e ↦ rw e (ap suc (length-insert_sorted y ys))
  | inr e ↦ rw e refl
]

pub length-sort : (ys : List Name) → length (sort ys) ≡ length ys
unfolding sort
length-sort [] = refl
length-sort (y ∷ ys) = length-insert_sorted y (sort ys) ∙ ap suc (length-sort ys)

pub All-insert_sorted :
    (P : Name → Type 0) (y : Name) (ys : List Name) → P y → All P ys → All P (insert_sorted y ys)
unfolding insert_sorted
All-insert_sorted P y [] p h = (p, tt)
All-insert_sorted P y (z ∷ ys) p h = elim (Bool-cases (name_ltb z y)) [
  | inl e ↦ rw e (h.0, All-insert_sorted P y ys p h.1)
  | inr e ↦ rw e (p, h)
]

pub All-sort : (P : Name → Type 0) (ys : List Name) → All P ys → All P (sort ys)
unfolding sort
All-sort P [] h = tt
All-sort P (y ∷ ys) h = All-insert_sorted P y (sort ys) h.0 (All-sort P ys h.1)

pub length-held : (m : NameMap PositionState) → length (held m) ≤ length m
unfolding held
length-held [] = omega arith
length-held (e ∷ m) = ground (arith, length-held m)

-- A predicate of the keys holds of the symbols that are written.
pub All-held : (P : Name → Type 0) (m : NameMap PositionState) → All (λ e. P e.0) m → All P (held m)
unfolding held
All-held P [] h = tt
All-held P (e ∷ m) h = elim (Bool-cases (is_empty e.1)) [
  | inl x ↦ rw x (All-held P m h.1)
  | inr x ↦ rw x (h.0, All-held P m h.1)
]

is_empty-no_position : (p : PositionState) → is_empty p ≡ true → p ≡ no_position
is_empty-no_position p h = ground arith

pub or_first : (a b : Bool) → (a || b) ≡ false → (a ≡ false) × (b ≡ false)
or_first a b h = ground arith

-- A symbol that is not written has an empty position.
pub unheld :
    (x : Name) (m : NameMap PositionState)
    → is_in x (held m) ≡ false
    → position_of x m ≡ no_position
unfolding held find
unheld x [] h = refl
unheld x (e ∷ m) h = elim (Bool-cases (is_empty e.1)) [
  | inl none_held ↦
      let h' = rw (none_held, held) at h in
      elim (Bool-cases (name_eq x e.0)) [
        | inl here ↦ rw here (is_empty-no_position e.1 none_held)
        | inr away ↦ rw away (unheld x m h')
      ]
  | inr some_held ↦
      let h' = or_first (name_eq x e.0) (is_in x (held m)) (rw (some_held, held) at h) in
      rw h'.0 (unheld x m h'.1)
]

-- A predicate of the values that the empty position has, too, holds of each position.
pub All-position_of :
    (P : PositionState → Type 0) (x : Name) (m : NameMap PositionState)
    → P no_position
    → All (λ e. P e.1) m
    → P (position_of x m)
unfolding find
All-position_of P x [] z h = z
All-position_of P x (e ∷ m) z h = elim (Bool-cases (name_eq x e.0)) [
  | inl here ↦ rw here h.0
  | inr away ↦ rw away (All-position_of P x m z h.1)
]
