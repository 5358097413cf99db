-- ===== src/Book/Snapshot/Restored.antt =====
-- A book of internal/book/book.go that is written and loaded again.
use mathlib.Core.Path.{subst}
use mathlib.Core.List.{append-nil, append_assoc}
use trade_execution_operatin.Common.{
  ℕ, ◌≡◌, refl, sym, ap, ◌∙◌, Bool, true, false, ◌&&◌, List, [], ◌∷◌, ◌++◌, ◌==◌, if◌then◌else◌,
  Bool-cases, inl, inr, arith, All, All-append,
}
use trade_execution_operatin.Book.{Side, Order, Level, Book, side_of, with_side}
use trade_execution_operatin.Book.Levels.{insert_order}
use trade_execution_operatin.Book.Levels.Ladder.{IsLadder, insert_order-IsLadder}
use trade_execution_operatin.Book.Submit.{remember, rest}
use trade_execution_operatin.Book.Snapshot.{
  sort_by_seq, level_orders, snapshot, cleared, load_orders, load_snapshot,
}
use trade_execution_operatin.Book.Snapshot.Queues.{queue_at, queue_at-insert_order, IsLadder-queues}
use trade_execution_operatin.Book.Snapshot.Priority.{
  is_side, picks, picks-append, Queued, All-sort_by_seq, picks-sort_by_seq, sort_by_seq-Queued,
}
use trade_execution_operatin.Book.Snapshot.Sides.{
  picks-ladder, picks-opposite_ladder, Rests, ladder-Rests, side_of-by_id, side_of-with_side,
  side_of-remember,
}

-- Resting one order, seen from one side.
rested : Book → Order → Book
rested b o = if o.remaining == 0 then b else rest (remember b o.id) o

side_of-rested :
    (s : Side) (b : Book) (o : Order)
    → Rests o
    → side_of s (rested b o)
      ≡ (if is_side s o.side then insert_order o.side o (side_of o.side b) else side_of s b)
unfolding rested rest
side_of-rested s b o r =
    let open_qty : (o.remaining == 0) ≡ false = let h = r.open_qty in ground arith in
    let b' = remember b o.id in
    rw open_qty (
      side_of-by_id s (with_side o.side b' (insert_order o.side o (side_of o.side b'))) _
      ∙ side_of-with_side s o.side b' (insert_order o.side o (side_of o.side b'))
      ∙ ap (λ ls. if is_side s o.side then insert_order o.side o ls else side_of s b')
          (side_of-remember o.side b o.id)
      ∙ ap (λ ls. if is_side s o.side then insert_order o.side o (side_of o.side b) else ls)
          (side_of-remember s b o.id))

is_side-same : (s t : Side) → is_side s t ≡ true → s ≡ t
is_side-same Side.buy Side.buy e = refl
is_side-same Side.buy Side.sell e = cc
is_side-same Side.sell Side.buy e = cc
is_side-same Side.sell Side.sell e = refl

-- A side of a book, with the queues that it has.
abbrev Holds : Side → (ℕ → List Order) → Book → Type 0
Holds s queues b = IsLadder s (side_of s b) × ((p : ℕ) → queue_at p (side_of s b) ≡ queues p)

abbrev one_more : Side → Order → (ℕ → List Order) → ℕ → List Order
one_more s o queues p = queues p ++ picks s p (o ∷ [])

snoc_if :
    (b : Bool) (q : List Order) (o : Order)
    → (if b then q ++ o ∷ [] else q) ≡ q ++ (if b then o ∷ [] else [])
snoc_if true q o = refl
snoc_if false q o = sym (append-nil q)

rested-Holds :
    (s : Side) (queues : ℕ → List Order) (b : Book) (o : Order)
    → Rests o
    → Holds s queues b
    → Holds s (one_more s o queues) (rested b o)
rested-Holds s queues b o r (ladder, agree) = elim (Bool-cases (is_side s o.side)) [
  | inl mine ↦
      let same = is_side-same s o.side mine in
      let ladder' = subst (λ t. IsLadder t (side_of t b)) same ladder in
      let now = side_of-rested s b o r ∙ rw mine refl in
      let put = insert_order-IsLadder o.side o (side_of o.side b) r ladder' in
      (
        subst (IsLadder s) (sym now)
            (subst (λ t. IsLadder t (insert_order o.side o (side_of o.side b))) (sym same) put),
        λ p.
            ap (queue_at p) now
            ∙ queue_at-insert_order o.side o (side_of o.side b) p ladder'
            ∙ ap
                (λ t.
                  if o.limit_price == p
                  then queue_at p (side_of t b) ++ o ∷ []
                  else queue_at p (side_of t b))
                (sym same)
            ∙ ap (λ q. if o.limit_price == p then q ++ o ∷ [] else q) (agree p)
            ∙ snoc_if (o.limit_price == p) (queues p) o
            ∙ ap (λ c. queues p ++ (if c && (o.limit_price == p) then o ∷ [] else [])) (sym mine),
      )
  | inr other ↦
      let now = side_of-rested s b o r ∙ rw other refl in
      (
        subst (IsLadder s) (sym now) ladder,
        λ p.
            ap (queue_at p) now
            ∙ agree p
            ∙ sym (append-nil (queues p))
            ∙ ap (λ c. queues p ++ (if c && (o.limit_price == p) then o ∷ [] else [])) (sym other),
      )
]

picks_cons :
    (s : Side) (p : ℕ) (o : Order) (os : List Order)
    → picks s p (o ∷ []) ++ picks s p os ≡ picks s p (o ∷ os)
picks_cons s p o os = sym (picks-append s p (o ∷ []) os)

load_orders-Holds :
    (s : Side) (queues : ℕ → List Order) (b : Book) (os : List Order)
    → All Rests os
    → Holds s queues b
    → Holds s (λ p. queues p ++ picks s p os) (load_orders b os)
unfolding load_orders rested
load_orders-Holds s queues b [] r h = (h.0, λ p. h.1 p ∙ sym (append-nil (queues p)))
load_orders-Holds s queues b (o ∷ os) r h =
    let later =
      load_orders-Holds s (one_more s o queues) (rested b o) os r.1
        (rested-Holds s queues b o r.0 h) in
    (
      later.0,
      λ p.
          later.1 p
          ∙ append_assoc (queues p) (picks s p (o ∷ [])) (picks s p os)
          ∙ ap (λ q. queues p ++ q) (picks_cons s p o os),
    )

-- Every queue of the side is in the order of arrival.
abbrev pub InArrivalOrder : List Level → Type 0
InArrivalOrder ls = All (λ (lv : Level). Queued lv.orders) ls

queue_at-Queued : (p : ℕ) (ls : List Level) → InArrivalOrder ls → Queued (queue_at p ls)
queue_at-Queued p [] h = tt
queue_at-Queued p (lv ∷ ls) h = elim (Bool-cases (lv.price == p)) [
  | inl e ↦ rw e h.0
  | inr e ↦ rw e (queue_at-Queued p ls h.1)
]

-- Both sorts leave the queue of a price as it was.
picks-sorted_twice :
    (s : Side) (p : ℕ) (os : List Order) (ls : List Level)
    → picks s p os ≡ queue_at p ls
    → InArrivalOrder ls
    → picks s p (sort_by_seq (sort_by_seq os)) ≡ queue_at p ls
picks-sorted_twice s p os ls e h =
    let queued = queue_at-Queued p ls h in
    picks-sort_by_seq s p (sort_by_seq os)
    ∙ ap sort_by_seq
        (picks-sort_by_seq s p os ∙ ap sort_by_seq e ∙ sort_by_seq-Queued (queue_at p ls) queued)
    ∙ sort_by_seq-Queued (queue_at p ls) queued

module _ (b b' : Book) (bids : IsLadder Side.buy b.bids) (asks : IsLadder Side.sell b.asks)
    (bids_queued : InArrivalOrder b.bids) (asks_queued : InArrivalOrder b.asks) where
  abbrev all_orders : List Order
  all_orders = level_orders b.bids ++ level_orders b.asks

  loaded : Book
  loaded = load_orders (cleared b') (sort_by_seq (sort_by_seq all_orders))

  All-rest : All Rests (sort_by_seq (sort_by_seq all_orders))
  All-rest = All-sort_by_seq Rests (sort_by_seq all_orders) (
      All-sort_by_seq Rests all_orders (
        All-append Rests (level_orders b.bids) (level_orders b.asks)
          (ladder-Rests Side.buy b.bids bids) (ladder-Rests Side.sell b.asks asks)))

  bids_restored : loaded.bids ≡ b.bids
  unfolding loaded
  bids_restored =
      let held =
        load_orders-Holds Side.buy (λ p. []) (cleared b') (sort_by_seq (sort_by_seq all_orders))
          All-rest (tt, λ p. refl) in
      IsLadder-queues Side.buy _ b.bids held.0 bids λ p.
        held.1 p
        ∙ picks-sorted_twice Side.buy p all_orders b.bids
            (picks-append Side.buy p (level_orders b.bids) (level_orders b.asks)
              ∙ ap (λ q. picks Side.buy p (level_orders b.bids) ++ q)
                  (picks-opposite_ladder Side.buy Side.sell p b.asks refl asks)
              ∙ append-nil (picks Side.buy p (level_orders b.bids))
              ∙ picks-ladder Side.buy p b.bids bids)
            bids_queued

  asks_restored : loaded.asks ≡ b.asks
  unfolding loaded
  asks_restored =
      let held =
        load_orders-Holds Side.sell (λ p. []) (cleared b') (sort_by_seq (sort_by_seq all_orders))
          All-rest (tt, λ p. refl) in
      IsLadder-queues Side.sell _ b.asks held.0 asks λ p.
        held.1 p
        ∙ picks-sorted_twice Side.sell p all_orders b.asks
            (picks-append Side.sell p (level_orders b.bids) (level_orders b.asks)
              ∙ ap (λ q. q ++ picks Side.sell p (level_orders b.asks))
                  (picks-opposite_ladder Side.sell Side.buy p b.bids refl bids)
              ∙ picks-ladder Side.sell p b.asks asks)
            asks_queued

-- LoadSnapshot restores what Snapshot wrote, into whatever book it is loaded. Let each side of a book be
-- a ladder, with every queue in the order of arrival. Then the loaded book has the same bids and asks,
-- level by level and queue by queue, hence the same price-time priority, and both counters, so that the
-- next fill gets the next number.
pub load_snapshot-snapshot :
    (b b' : Book)
    → IsLadder Side.buy b.bids
    → IsLadder Side.sell b.asks
    → InArrivalOrder b.bids
    → InArrivalOrder b.asks
    → ((load_snapshot b' (snapshot b)).bids ≡ b.bids)
      × (((load_snapshot b' (snapshot b)).asks ≡ b.asks)
          × (((load_snapshot b' (snapshot b)).book_seq ≡ b.book_seq)
              × ((load_snapshot b' (snapshot b)).arrival ≡ b.arrival)))
unfolding load_snapshot snapshot loaded
load_snapshot-snapshot b b' bids asks bq aq =
    (bids_restored b b' bids asks bq aq, (asks_restored b b' bids asks bq aq, (refl, refl)))
