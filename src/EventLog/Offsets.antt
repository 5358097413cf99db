-- ===== src/EventLog/Offsets.antt =====
-- The offsets that Produce of internal/eventlog/memlog.go assigns.
use trade_execution_operatin.Common.{
  ℕ, ◌+◌, ◌≡◌, refl, sym, ◌∙◌, Bool, true, ◌&&◌, List, [], ◌∷◌, ◌++◌, ◌==◌, ==_iff, Bool-cases,
  Option-cases, inl, inr, arith, length,
}
use mathlib.Core.Path.{subst}
use trade_execution_operatin.Common.NameMap.{find}
use trade_execution_operatin.Common.Names.{name_eq}
use trade_execution_operatin.Book.{Name}
use trade_execution_operatin.EventLog.{
  Record, MemLog, partition_for, records_at, append, is_duplicated, produce_one, produce,
}
use trade_execution_operatin.EventLog.Indexed.{is_place, placed, records_at-append}

-- The offset of a record is its index, and its place is the one that its key is hashed to.
abbrev pub Numbered : ℕ → ℕ → List Record → Type 0
Numbered p n [] = Unit
Numbered p n (r ∷ rs) = ((r.offset ≡ n) × (r.partition ≡ p)) × Numbered p (n + 1) rs

abbrev pub IsIndexed : MemLog → Type 0
IsIndexed l = (topic : Name) (p : ℕ) → Numbered p 0 (records_at topic p l)

Numbered-append :
    (p n : ℕ) (xs : List Record) (r : Record)
    → Numbered p n xs
    → r.offset ≡ n + length xs
    → r.partition ≡ p
    → Numbered p n (xs ++ r ∷ [])
Numbered-append p n [] r h e ep = ((omega arith, ep), tt)
Numbered-append p n (x ∷ xs) r h e ep = (h.0, Numbered-append p (n + 1) xs r h.1 (omega arith) ep)

append-IsIndexed : (r : Record) (p : ℕ) (l : MemLog) → IsIndexed l → IsIndexed (append r p l)
append-IsIndexed r p l h topic q = elim (Bool-cases (is_place topic q r.topic p)) [
  | inl here ↦ subst (Numbered q 0) (sym (records_at-append topic q r p l ∙ rw here refl)) (
      subst (λ k. Numbered k 0 (records_at r.topic p l ++ placed r p l ∷ []))
        (sym ((==_iff q p).0 (second (name_eq topic r.topic) (q == p) here)))
        (Numbered-append p 0 (records_at r.topic p l) (placed r p l) (h r.topic p) (omega arith)
          refl))
  | inr away ↦
      subst (Numbered q 0) (sym (records_at-append topic q r p l ∙ rw away refl)) (h topic q)
]
  where
    second : (a b : Bool) → (a && b) ≡ true → b ≡ true
    second a b h = ground arith

produce_one-IsIndexed :
    (r : Record) (n : ℕ) (l : MemLog) → IsIndexed l → IsIndexed (produce_one r n l)
unfolding produce_one
produce_one-IsIndexed r n l h =
    let p = partition_for r.key n in
    elim (Bool-cases (is_duplicated l.duplicate r)) [
      | inl e ↦ rw e (append-IsIndexed r p (append r p l) (append-IsIndexed r p l h))
      | inr e ↦ rw e (append-IsIndexed r p l h)
    ]

-- In every log that NewMemLog and Produce make, the offset of a record is its index in its partition.
pub produce-IsIndexed : (rs : List Record) (l : MemLog) → IsIndexed l → IsIndexed (produce rs l).0
unfolding produce
produce-IsIndexed [] l h = h
produce-IsIndexed (r ∷ rs) l h = elim (Option-cases (find r.topic l.parts)) [
  | inl e ↦ rw (e, produce) h
  | inr (n, e) ↦
      rw (e, produce) (produce-IsIndexed rs (produce_one r n l) (produce_one-IsIndexed r n l h))
]
