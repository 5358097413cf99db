-- ===== src/Book/Submit/Again.antt =====
-- The dedup of internal/book/book.go: the next Submit of an id that went through Submit is ignored.
use mathlib.Core.Path.{subst}
use trade_execution_operatin.Common.{◌≡◌, true, Option, some, List, arith, Bool-cases, inl, inr, ap}
use trade_execution_operatin.Common.Dict.{contains}
use trade_execution_operatin.Book.{Uuid, Order, Outcome, Book}
use trade_execution_operatin.Book.Submit.{seen, remember, ignored, submit}
use trade_execution_operatin.Book.Submit.Cancel.{submit-seen}
use trade_execution_operatin.Book.Submit.Dedup.{submit-dedup}

pub remember-contains : (b : Book) (id : Uuid) → contains id (remember b id).dedup_set ≡ true
unfolding remember
remember-contains b id = elim (Bool-cases (contains id b.dedup_set)) [
  | inl e ↦ rw e e
  | inr e ↦ rw e (ground arith)
]

pub seen_of-contains :
    (b : Book) (id : Uuid) {ids : List Uuid}
    → b.dedup_set ≡ ids
    → contains id ids ≡ true
    → seen b id ≡ true
unfolding seen
seen_of-contains b id same h = rw same (rw h (ground arith))

submit-remembers :
    (b : Book) (o : Order) (b' : Book) (out : Outcome)
    → submit b o ≡ some (b', out)
    → seen b' o.id ≡ true
unfolding submit
submit-remembers b o b' out e = elim (Bool-cases (seen b o.id)) [
  | inl known ↦
      let r : ◌≡◌ {A = Option (Book × Outcome)} (some (b, ignored)) (some (b', out)) =
        rw known at e in
      let same : b ≡ b' = cc in subst (λ x. seen x o.id ≡ true) same known
  | inr new ↦
      seen_of-contains b' o.id (ap (λ d. d.0) (submit-dedup b o b' out new e))
        (remember-contains b o.id)
]

-- Once Submit has returned for an order, the next Submit under the same id, whatever else it asks for,
-- changes nothing and reports a duplicate.
pub submit_twice :
    (b : Book) (o o' : Order) (b' : Book) (out : Outcome)
    → submit b o ≡ some (b', out)
    → o'.id ≡ o.id
    → submit b' o' ≡ some (b', ignored)
submit_twice b o o' b' out e same = submit-seen b' o' (rw same (submit-remembers b o b' out e))
