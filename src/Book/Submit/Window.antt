-- ===== src/Book/Submit/Window.antt =====
-- How long internal/book/book.go remembers an id: over as many further ids as its ring has slots.
use mathlib.Core.Path.{subst}
use trade_execution_operatin.Common.{
  ℕ, zero, suc, ◌+◌, ◌%◌, ◌<◌, ◌≤◌, ◌≡◌, refl, sym, ap, ◌∙◌, true, false, Option, none, some, List,
  [], ◌∷◌, ◌==◌, arith, Bool-cases, inl, inr, if◌then◌else◌, length, get_or, set, length-set,
  replicate,
}
use trade_execution_operatin.Common.Names.{false-ne-true}
use trade_execution_operatin.Common.Dict.{contains, remove, contains-remove}
use trade_execution_operatin.Book.{Uuid, Order, Book}
use trade_execution_operatin.Book.Submit.{seen, remember, submit, cancel, restore}
use trade_execution_operatin.Book.Submit.Dedup.{dedup}
use trade_execution_operatin.Book.Submit.Ring.{
  IsClear, IsClear-fewer, set-IsClear, count, count-set, written-IsClear, next_slot,
}

abbrev pub Dedup : Type 0
Dedup = List Uuid × List Uuid × ℕ × ℕ

-- The set of a dedup state is what delete(dedupSet, old) leaves.
abbrev kept : Dedup → List Uuid
kept d = let old = get_or d.1 d.2 0 in if old == 0 then d.0 else remove old d.0

abbrev entered : Dedup → Uuid → Dedup
entered d id = (id ∷ kept d, set d.1 d.2 id, (d.2 + 1) % d.3, d.3)

-- The next slot is a slot of the ring, and an id that the ring holds is held once and is in the set.
pub record IsRing (d : Dedup) : Type 0 where
  pub slots : length d.1 ≡ d.3
  pub next : d.2 < d.3
  pub once : (id : ℕ) → (id == 0) ≡ false → count id d.1 ≤ (if contains id d.0 then 1 else 0)

remember-known : (b : Book) (id : Uuid) → contains id b.dedup_set ≡ true → remember b id ≡ b
unfolding remember
remember-known b id h = rw h refl

remember-entered :
    (b : Book) (id : Uuid)
    → contains id b.dedup_set ≡ false
    → dedup (remember b id) ≡ entered (dedup b) id
unfolding remember
remember-entered b id h = rw h refl

contains-kept :
    (d : Dedup) (z : ℕ) → (get_or d.1 d.2 0 == z) ≡ false → contains z (kept d) ≡ contains z d.0
contains-kept d z h = elim (Bool-cases (get_or d.1 d.2 0 == 0)) [
  | inl free ↦ rw free refl
  | inr old ↦ rw old (contains-remove z (get_or d.1 d.2 0) d.0 ∙ ground arith)
]

entered-once :
    (d : Dedup) (x z : ℕ)
    → IsRing d
    → contains x d.0 ≡ false
    → (z == 0) ≡ false
    → count z (set d.1 d.2 x) ≤ (if contains z (entered d x).0 then 1 else 0)
entered-once d x z r new nil =
    let before = r.once z nil in
    let change = count-set z d.1 d.2 x (omega (arith, r.slots, r.next)) in
    elim (Bool-cases (z == x)) [
      | inl e ↦
          let none_before : contains z d.0 ≡ false =
            let same : z ≡ x = ground arith in rw same new in
          ground arith
      | inr other ↦ elim (Bool-cases (z == get_or d.1 d.2 0)) [
        | inl out ↦ ground arith
        | inr stays ↦
            let same : contains z (kept d) ≡ contains z d.0 = contains-kept d z (ground arith) in
            ground arith
      ]
    ]

entered-IsRing : (d : Dedup) (x : ℕ) → IsRing d → contains x d.0 ≡ false → IsRing (entered d x)
entered-IsRing d x r new = record {
  slots = length-set d.1 d.2 x ∙ r.slots;
  next = rw (next_slot d.2 d.3 r.next) (let n = r.next in ground arith);
  once = λ z nil. entered-once d x z r new nil;
}

pub remember-IsRing : (b : Book) (id : Uuid) → IsRing (dedup b) → IsRing (dedup (remember b id))
remember-IsRing b id r = elim (Bool-cases (contains id b.dedup_set)) [
  | inl known ↦ rw (remember-known b id known) r
  | inr new ↦ subst IsRing (sym (remember-entered b id new)) (entered-IsRing (dedup b) id r new)
]

count_nil_slots : (id n : ℕ) → (id == 0) ≡ false → count id (replicate n 0) ≡ 0
unfolding count
count_nil_slots id zero h = refl
count_nil_slots id (suc n) h = rw (h, count_nil_slots id n h) refl

length_nil_slots : (n : ℕ) → length {A = ℕ} (replicate n 0) ≡ n
length_nil_slots zero = refl
length_nil_slots (suc n) = ap suc (length_nil_slots n)

-- The dedup state of a book that New has made.
pub new-IsRing : (window : ℕ) → 0 < window → IsRing ([], replicate window 0, 0, window)
new-IsRing window h = record {
  slots = length_nil_slots window;
  next = h;
  once = λ id nil. omega (arith, count_nil_slots id window nil);
}

-- The id is in the set, and the next `k` slots do not hold it.
pub IsHeld : Uuid → ℕ → Dedup → Type 0
IsHeld id k d = (contains id d.0 ≡ true) × IsClear d.3 d.1 d.2 id k

contains-other :
    (x id : ℕ) (xs : List ℕ) → contains x xs ≡ false → contains id xs ≡ true → (x == id) ≡ false
contains-other x id xs out held = elim (Bool-cases (x == id)) [
  | inl e ↦
      let same : x ≡ id = ground arith in
      absurd (false-ne-true (sym out ∙ ap (λ z. contains z xs) same ∙ held))
  | inr e ↦ e
]

pub remember-IsHeld :
    (b : Book) (x id k : ℕ) → IsHeld id (suc k) (dedup b) → IsHeld id k (dedup (remember b x))
unfolding IsHeld IsClear
remember-IsHeld b x id k h = elim (Bool-cases (contains x b.dedup_set)) [
  | inl known ↦
      rw (remember-known b x known)
        (h.0, IsClear-fewer b.dedup_limit b.dedup_ring b.dedup_next id k h.1)
  | inr new ↦
      let other : (x == id) ≡ false = contains-other x id b.dedup_set new h.0 in
      subst (IsHeld id k) (sym (remember-entered b x new)) (
        rw (contains-kept (dedup b) id h.1.0, h.0) (ground arith),
        set-IsClear b.dedup_limit b.dedup_ring b.dedup_next x _ id k other h.1.1,
      )
]

-- An id that has just been entered is held for as many further ids as there are other slots.
pub remembered-IsHeld :
    (b : Book) (id k : ℕ)
    → IsRing (dedup b)
    → (id == 0) ≡ false
    → contains id b.dedup_set ≡ false
    → k < b.dedup_limit
    → IsHeld id k (dedup (remember b id))
unfolding IsHeld
remembered-IsHeld b id k r nil new few =
    let here : (id == id) ≡ true = ground arith in
    let absent : count id b.dedup_ring ≡ 0 = let c = r.once id nil in ground arith in
    let next : b.dedup_next < b.dedup_limit = r.next in
    subst (IsHeld id k) (sym (remember-entered b id new)) (
      rw here refl,
      written-IsClear b.dedup_ring b.dedup_next id ((b.dedup_next + 1) % b.dedup_limit) k
          b.dedup_limit next (rw (next_slot b.dedup_next b.dedup_limit next) (ground arith)) nil
          absent (rw (next_slot b.dedup_next b.dedup_limit next) (ground arith)),
    )

pub IsHeld-fewer : (id k : ℕ) (d : Dedup) → IsHeld id (suc k) d → IsHeld id k d
unfolding IsHeld
IsHeld-fewer id k d h = (h.0, IsClear-fewer d.3 d.1 d.2 id k h.1)

pub seen-IsHeld : (b : Book) (id k : ℕ) → IsHeld id k (dedup b) → seen b id ≡ true
unfolding seen IsHeld
seen-IsHeld b id k h = rw h.0 (ground arith)

pub seen-false : (b : Book) (id : ℕ) → seen b id ≡ false → contains id b.dedup_set ≡ false
unfolding seen
seen-false b id h = ground arith

-- The calls that a book may get between two Submits of one id.
pub data Call : Type 0 where
  submitting : Order → Call
  cancelling : Uuid → Call
  restoring : Order → Call

-- The book that a call leaves: `none` is a panic of Submit.
abbrev pub call : Call → Book → Option Book
call (submitting o) b = elim (submit b o) [ none ↦ none | some r ↦ some r.0 ]
call (cancelling id) b = some (cancel b id).0
call (restoring o) b = some (restore b o)

unfoldable pub calls : List Call → Book → Option Book
calls [] b = some b
calls (c ∷ cs) b = elim (call c b) [ none ↦ none | some b' ↦ calls cs b' ]

-- The calls that may enter an id.
abbrev pub entries : List Call → ℕ
entries [] = 0
entries (submitting o ∷ cs) = 1 + entries cs
entries (cancelling id ∷ cs) = entries cs
entries (restoring o ∷ cs) = 1 + entries cs
