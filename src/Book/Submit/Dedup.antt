-- ===== src/Book/Submit/Dedup.antt =====
-- The dedup state of a book (internal/book/book.go), which only remember changes.
use mathlib.Core.Path.{subst}
use trade_execution_operatin.Common.{none-ne-some}
use trade_execution_operatin.Common.{
  ℕ, ◌≡◌, refl, ◌∙◌, some, List, ◌==◌, Bool-cases, Option-cases, inl, inr, false, true, Bool, ◌⊎◌,
  if◌then◌else◌,
}
use trade_execution_operatin.Common.Dict.{lookup}
use trade_execution_operatin.Book.{
  Uuid, Side, Level, Order, Outcome, Book, with_side, opposite, side_of,
}
use trade_execution_operatin.Book.Levels.{cancel_order}
use trade_execution_operatin.Book.Sweep.{Sweep, sweep, fuel_of}
use trade_execution_operatin.Book.Submit.{
  seen, remember, rest, admit, start, swept, can_rest, conclude, match_order, submit, cancel,
  cancel_found, restore, restorable,
}

-- The set, the ring, the next slot and the number of slots.
abbrev pub dedup : Book → List Uuid × List Uuid × ℕ × ℕ
dedup b = (b.dedup_set, b.dedup_ring, b.dedup_next, b.dedup_limit)

pub with_side-dedup : (s : Side) (b : Book) (ls : List Level) → dedup (with_side s b ls) ≡ dedup b
with_side-dedup Side.buy b ls = refl
with_side-dedup Side.sell b ls = refl

pub rest-dedup : (b : Book) (o : Order) → dedup (rest b o) ≡ dedup b
unfolding rest
rest-dedup b o = with_side-dedup o.side b _

conclude-dedup : (b : Book) (o : Order) (s : Sweep) → dedup (conclude b o s).0 ≡ dedup b
unfolding conclude
conclude-dedup b o s =
    let loop = with_side-dedup (opposite o.side) b s.levels in
    elim (Bool-cases (s.remaining == 0)) [
      | inl full ↦ rw full loop
      | inr part ↦ elim (Bool-cases (can_rest o.order_type o.tif)) [
        | inl rests ↦
            rw (part, rests)
              (rest-dedup (swept b o s) (record o { remaining = s.remaining }) ∙ loop)
        | inr ends ↦ rw (part, ends) loop
      ]
    ]

pub match_order-dedup :
    (b : Book) (o : Order) (b' : Book) (out : Outcome)
    → match_order b o ≡ some (b', out)
    → dedup b' ≡ dedup b
unfolding match_order
match_order-dedup b o b' out e = elim (Option-cases (sweep (fuel_of (start b o)) b o (start b o))) [
  | inl stuck ↦ absurd (none-ne-some (rw (stuck, match_order) at e))
  | inr (s, done) ↦
      let r : some (conclude b o s) ≡ some (b', out) = rw (done, match_order) at e in
      let same : conclude b o s ≡ (b', out) = cc in
      subst (λ (x : Book × Outcome). dedup x.0 ≡ dedup b) same (conclude-dedup b o s)
]

pub submit-dedup :
    (b : Book) (o : Order) (b' : Book) (out : Outcome)
    → seen b o.id ≡ false
    → submit b o ≡ some (b', out)
    → dedup b' ≡ dedup (remember b o.id)
unfolding submit
submit-dedup b o b' out new e =
    let r : match_order (admit b o).0 (admit b o).1 ≡ some (b', out) = rw new at e in
    match_order-dedup (admit b o).0 (admit b o).1 b' out r

cancel_found-dedup : (b : Book) (id : Uuid) (o : Order) → dedup (cancel_found b id o).0 ≡ dedup b
unfolding cancel_found
cancel_found-dedup b id o = elim (Option-cases (cancel_order o.limit_price id (side_of o.side b))) [
  | inl absent ↦ rw (absent, cancel_found) refl
  | inr (ls, found) ↦ rw (found, cancel_found) (with_side-dedup o.side b ls)
]

pub cancel-dedup : (b : Book) (id : Uuid) → dedup (cancel b id).0 ≡ dedup b
unfolding cancel
cancel-dedup b id = elim (Option-cases (lookup id b.by_id)) [
  | inl absent ↦ rw (absent, cancel) refl
  | inr (o, found) ↦ rw (found, cancel) (cancel_found-dedup b id o)
]

later_arrival :
    (t : Bool) (b : Book) (n : ℕ) → dedup (if t then record b { arrival = n } else b) ≡ dedup b
later_arrival true b n = refl
later_arrival false b n = refl

-- Restore remembers the id, or does nothing.
pub restore-dedup :
    (b : Book) (o : Order)
    → (dedup (restore b o) ≡ dedup b) ⊎ (dedup (restore b o) ≡ dedup (remember b o.id))
unfolding restore
restore-dedup b o = elim (Bool-cases (restorable o.order_type o.remaining)) [
  | inl rests ↦ inr (rw (restore, rests) (later_arrival _ _ _ ∙ rest-dedup (remember b o.id) o))
  | inr skips ↦ inl (rw (restore, skips) refl)
]
