-- ===== src/Outbox/Marking.antt =====
-- The rows that a batch of internal/outbox/relay.go takes and marks.
use trade_execution_operatin.Common.{
  ℕ, zero, suc, ◌<◌, ◌≡◌, refl, sym, ap, ◌∙◌, true, false, List, [], ◌∷◌, ◌==◌, Bool-cases, inl,
  inr, arith, take, drop, All,
}
use trade_execution_operatin.Common.Dict.{contains}
use trade_execution_operatin.Outbox.{Row, unpublished, ids_of, mark}

-- The ids ascend, as a bigserial's do.
abbrev pub Ascending : List Row → Type 0
Ascending [] = Unit
Ascending (r ∷ rows) = All (λ (x : Row). r.id < x.id) rows × Ascending rows

mark_nothing : (rows : List Row) → mark [] rows ≡ rows
unfolding mark
mark_nothing [] = refl
mark_nothing (r ∷ rows) = ap (λ l. r ∷ l) (mark_nothing rows)

-- An id that no row has marks nothing.
mark_absent :
    (id : ℕ) (ids : List ℕ) (rows : List Row)
    → All (λ (x : Row). id < x.id) rows
    → mark (id ∷ ids) rows ≡ mark ids rows
unfolding mark
mark_absent id ids [] h = refl
mark_absent id ids (r ∷ rows) h =
    let other : (r.id == id) ≡ false = let b = h.0 in ground arith in
    rw (other, mark_absent id ids rows h.1) refl

pub mark-Ascending : (ids : List ℕ) (rows : List Row) → Ascending rows → Ascending (mark ids rows)
unfolding mark
mark-Ascending ids [] h = tt
mark-Ascending ids (r ∷ rows) h = elim (Bool-cases (contains r.id ids)) [
  | inl e ↦ rw e (mark_above r.id ids rows h.0, mark-Ascending ids rows h.1)
  | inr e ↦ rw e (mark_above r.id ids rows h.0, mark-Ascending ids rows h.1)
]
  where
    mark_above :
        (id : ℕ) (ids : List ℕ) (rows : List Row)
        → All (λ (x : Row). id < x.id) rows
        → All (λ (x : Row). id < x.id) (mark ids rows)
    mark_above id ids [] h = tt
    mark_above id ids (r ∷ rows) h = elim (Bool-cases (contains r.id ids)) [
      | inl e ↦ rw e (h.0, mark_above id ids rows h.1)
      | inr e ↦ rw e (h.0, mark_above id ids rows h.1)
    ]

unpublished-mark_published :
    (r : Row) (ids : List ℕ) (rows : List Row)
    → r.published ≡ true
    → unpublished (mark ids (r ∷ rows)) ≡ unpublished (mark ids rows)
unfolding mark unpublished
unpublished-mark_published r ids rows h = elim (Bool-cases (contains r.id ids)) [
  | inl e ↦ rw e refl
  | inr e ↦ rw (e, h) refl
]

unpublished-mark_head :
    (r : Row) (ids : List ℕ) (rows : List Row)
    → unpublished (mark (r.id ∷ ids) (r ∷ rows)) ≡ unpublished (mark (r.id ∷ ids) rows)
unfolding mark unpublished
unpublished-mark_head r ids rows = let self : (r.id == r.id) ≡ true = ground arith in rw self refl

unpublished_skips :
    (r : Row) (rows : List Row) → r.published ≡ true → unpublished (r ∷ rows) ≡ unpublished rows
unfolding unpublished
unpublished_skips r rows e = rw e refl

unpublished_takes :
    (r : Row) (rows : List Row)
    → r.published ≡ false
    → unpublished (r ∷ rows) ≡ r ∷ unpublished rows
unfolding unpublished
unpublished_takes r rows e = rw e refl

unpublished_nil : (ids : List ℕ) (n : ℕ) → unpublished (mark ids []) ≡ drop (suc n) (unpublished [])
unfolding unpublished mark
unpublished_nil ids n = refl

-- Marking the rows of a batch leaves the later ones unpublished.
pub unpublished-mark :
    (n : ℕ) (rows : List Row)
    → Ascending rows
    → unpublished (mark (ids_of (take n (unpublished rows))) rows) ≡ drop n (unpublished rows)
unpublished-mark zero rows h = ap unpublished (mark_nothing rows)
unpublished-mark (suc n) [] h = unpublished_nil (ids_of (take (suc n) (unpublished []))) n
unpublished-mark (suc n) (r ∷ rows) h = elim (Bool-cases r.published) [
  | inl e ↦
      let skips = unpublished_skips r rows e in
      ap (λ us. unpublished (mark (ids_of (take (suc n) us)) (r ∷ rows))) skips
      ∙ unpublished-mark_published r (ids_of (take (suc n) (unpublished rows))) rows e
      ∙ unpublished-mark (suc n) rows h.1
      ∙ ap (drop (suc n)) (sym skips)
  | inr e ↦
      let takes = unpublished_takes r rows e in
      let ids = ids_of (take n (unpublished rows)) in
      ap (λ us. unpublished (mark (ids_of (take (suc n) us)) (r ∷ rows))) takes
      ∙ unpublished-mark_head r ids rows
      ∙ ap unpublished (mark_absent r.id ids rows h.0)
      ∙ unpublished-mark n rows h.1
      ∙ ap (drop (suc n)) (sym takes)
]
