-- ===== src/Book/Snapshot/Priority.antt =====
-- The order in which internal/book/book.go writes and restores resting orders, seen from one price.
use trade_execution_operatin.Common.{
  ℕ, ◌≤◌, ◌<◌, ◌≡◌, refl, sym, ap, ◌∙◌, Bool, true, false, ◌&&◌, List, [], ◌∷◌, ◌++◌, ltb, ◌==◌,
  if◌then◌else◌, Bool-cases, inl, inr, arith, All, All-map,
}
use trade_execution_operatin.Book.{Side, Order}
use trade_execution_operatin.Book.Snapshot.{insert_by_seq, sort_by_seq}

abbrev pub is_side : Side → Side → Bool
is_side Side.buy Side.buy = true
is_side Side.buy Side.sell = false
is_side Side.sell Side.buy = false
is_side Side.sell Side.sell = true

abbrev pub is_at : Side → ℕ → Order → Bool
is_at s p o = is_side s o.side && (o.limit_price == p)

-- The orders of one side at one price, in the order of the list.
abbrev pub picks : Side → ℕ → List Order → List Order
picks s p [] = []
picks s p (o ∷ os) = let rest = picks s p os in if is_at s p o then o ∷ rest else rest

pub picks-append :
    (s : Side) (p : ℕ) (xs ys : List Order) → picks s p (xs ++ ys) ≡ picks s p xs ++ picks s p ys
picks-append s p [] ys = refl
picks-append s p (o ∷ xs) ys = elim (Bool-cases (is_at s p o)) [
  | inl e ↦ rw e (ap (λ l. o ∷ l) (picks-append s p xs ys))
  | inr e ↦ rw e (picks-append s p xs ys)
]

-- Sorted by arrival, and strictly.
abbrev pub Sorted : List Order → Type 0
Sorted [] = Unit
Sorted (o ∷ os) = All (λ (x : Order). o.seq ≤ x.seq) os × Sorted os

abbrev pub Queued : List Order → Type 0
Queued [] = Unit
Queued (o ∷ os) = All (λ (x : Order). o.seq < x.seq) os × Queued os

pub All-insert_by_seq :
    (P : Order → Type 0) (o : Order) (us : List Order) → P o → All P us → All P (insert_by_seq o us)
unfolding insert_by_seq
All-insert_by_seq P o [] h k = (h, tt)
All-insert_by_seq P o (u ∷ us) h k = elim (Bool-cases (ltb o.seq u.seq)) [
  | inl e ↦ rw e (h, k)
  | inr e ↦ rw e (k.0, All-insert_by_seq P o us h k.1)
]

insert_by_seq-Sorted : (o : Order) (us : List Order) → Sorted us → Sorted (insert_by_seq o us)
unfolding insert_by_seq
insert_by_seq-Sorted o [] h = (tt, tt)
insert_by_seq-Sorted o (u ∷ us) h = elim (Bool-cases (ltb o.seq u.seq)) [
  | inl e ↦ rw e ((ground arith, All-map us (λ (x : Order) k. ground arith) h.0), h)
  | inr e ↦ rw e (
    All-insert_by_seq (λ (x : Order). u.seq ≤ x.seq) o us (ground arith) h.0,
    insert_by_seq-Sorted o us h.1,
  )
]

pub sort_by_seq-Sorted : (os : List Order) → Sorted (sort_by_seq os)
unfolding sort_by_seq
sort_by_seq-Sorted [] = tt
sort_by_seq-Sorted (o ∷ os) = insert_by_seq-Sorted o (sort_by_seq os) (sort_by_seq-Sorted os)

pub All-sort_by_seq : (P : Order → Type 0) (os : List Order) → All P os → All P (sort_by_seq os)
unfolding sort_by_seq
All-sort_by_seq P [] h = tt
All-sort_by_seq P (o ∷ os) h = All-insert_by_seq P o (sort_by_seq os) h.0 (All-sort_by_seq P os h.1)

All-picks :
    (P : Order → Type 0) (s : Side) (p : ℕ) (os : List Order) → All P os → All P (picks s p os)
All-picks P s p [] h = tt
All-picks P s p (o ∷ os) h = elim (Bool-cases (is_at s p o)) [
  | inl e ↦ rw e (h.0, All-picks P s p os h.1)
  | inr e ↦ rw e (All-picks P s p os h.1)
]

insert_first :
    (o : Order) (us : List Order)
    → All (λ (x : Order). o.seq < x.seq) us
    → insert_by_seq o us ≡ o ∷ us
unfolding insert_by_seq
insert_first o [] h = refl
insert_first o (u ∷ us) h =
    let e : ltb o.seq u.seq ≡ true = let b = h.0 in ground arith in rw e refl

skips_insert :
    (s : Side) (p : ℕ) (o : Order) (us : List Order)
    → is_at s p o ≡ false
    → picks s p (insert_by_seq o us) ≡ picks s p us
unfolding insert_by_seq
skips_insert s p o [] h = rw h refl
skips_insert s p o (u ∷ us) h = elim (Bool-cases (ltb o.seq u.seq)) [
  | inl e ↦ rw (e, h) refl
  | inr e ↦ rw e (elim (Bool-cases (is_at s p u)) [
    | inl a ↦ rw a (ap (λ l. u ∷ l) (skips_insert s p o us h))
    | inr a ↦ rw a (skips_insert s p o us h)
  ])
]

picks-insert_by_seq :
    (s : Side) (p : ℕ) (o : Order) (us : List Order)
    → is_at s p o ≡ true
    → Sorted us
    → picks s p (insert_by_seq o us) ≡ insert_by_seq o (picks s p us)
unfolding insert_by_seq
picks-insert_by_seq s p o [] h k = rw h refl
picks-insert_by_seq s p o (u ∷ us) h k = elim (Bool-cases (ltb o.seq u.seq)) [
  | inl e ↦
      let above : All (λ (x : Order). o.seq < x.seq) (u ∷ us) =
        (ground arith, All-map us (λ (x : Order) b. ground arith) k.0) in
      rw (e, h)
        (sym (
          insert_first o (picks s p (u ∷ us))
            (All-picks (λ (x : Order). o.seq < x.seq) s p (u ∷ us) above)))
  | inr e ↦ rw e (elim (Bool-cases (is_at s p u)) [
    | inl a ↦ rw (a, e) (ap (λ l. u ∷ l) (picks-insert_by_seq s p o us h k.1))
    | inr a ↦ rw a (picks-insert_by_seq s p o us h k.1)
  ])
]

pub picks-sort_by_seq :
    (s : Side) (p : ℕ) (os : List Order) → picks s p (sort_by_seq os) ≡ sort_by_seq (picks s p os)
unfolding sort_by_seq
picks-sort_by_seq s p [] = refl
picks-sort_by_seq s p (o ∷ os) = elim (Bool-cases (is_at s p o)) [
  | inl e ↦ rw e (
      picks-insert_by_seq s p o (sort_by_seq os) e (sort_by_seq-Sorted os)
      ∙ ap (insert_by_seq o) (picks-sort_by_seq s p os))
  | inr e ↦ rw e (skips_insert s p o (sort_by_seq os) e ∙ picks-sort_by_seq s p os)
]

-- A queue in arrival order is sorted already.
pub sort_by_seq-Queued : (os : List Order) → Queued os → sort_by_seq os ≡ os
unfolding sort_by_seq
sort_by_seq-Queued [] h = refl
sort_by_seq-Queued (o ∷ os) h =
    ap (insert_by_seq o) (sort_by_seq-Queued os h.1) ∙ insert_first o os h.0
