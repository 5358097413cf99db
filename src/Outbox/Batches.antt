-- ===== src/Outbox/Batches.antt =====
-- Batches of internal/outbox/relay.go that are produced one after the other.
use trade_execution_operatin.Common.{none-ne-some}
use trade_execution_operatin.Common.{
  ℕ, ◌<◌, ◌≡◌, refl, sym, ap, ◌∙◌, true, none, List, [], ◌∷◌, ◌++◌, map, Option-cases, inl, inr,
  length, take,
}
use trade_execution_operatin.Common.NameMap.{NameMap, find}
use trade_execution_operatin.EventLog.{Record, MemLog, produce, produce_one}
use trade_execution_operatin.EventLog.Indexed.{unknown_topic, produce_one-parts}
use trade_execution_operatin.Outbox.{
  Row, State, unpublished, record_of, ids_of, mark, pumped, publish,
}

-- Two batches, one after the other, are one.
pub produce-append :
    (xs ys : List Record) (l : MemLog)
    → unknown_topic l.parts xs ≡ none
    → (produce (xs ++ ys) l ≡ produce ys (produce xs l).0)
      × (((produce xs l).1 ≡ none) × ((produce xs l).0.parts ≡ l.parts))
unfolding produce unknown_topic
produce-append [] ys l h = (refl, (refl, refl))
produce-append (r ∷ xs) ys l h = elim (Option-cases (find r.topic l.parts)) [
  | inl e ↦ absurd (none-ne-some (sym (rw (e, unknown_topic) at h)))
  | inr (n, e) ↦
      let same = produce_one-parts r n l in
      let known = rw (e, unknown_topic) at h in
      let later =
        produce-append xs ys (produce_one r n l) (ap (λ ps. unknown_topic ps xs) same ∙ known) in
      rw (e, produce) (later.0, (later.1.0, later.1.1 ∙ same))
]

pub unknown_topic-append :
    (parts : NameMap ℕ) (xs ys : List Record)
    → unknown_topic parts (xs ++ ys) ≡ none
    → (unknown_topic parts xs ≡ none) × (unknown_topic parts ys ≡ none)
unfolding unknown_topic
unknown_topic-append parts [] ys h = (refl, h)
unknown_topic-append parts (r ∷ xs) ys h = elim (Option-cases (find r.topic parts)) [
  | inl e ↦ absurd (none-ne-some (sym (rw (e, unknown_topic) at h)))
  | inr (n, e) ↦
      let both = unknown_topic-append parts xs ys (rw (e, unknown_topic) at h) in
      rw (e, unknown_topic) both
]

abbrev pub waiting : State → List Record
waiting s = map record_of (unpublished s.rows)

abbrev pub after : ℕ → State → State
after batch s = record {
  rows = mark (ids_of (take batch (unpublished s.rows))) s.rows;
  log = (produce (map record_of (take batch (unpublished s.rows))) s.log).0;
}

-- A round that publishes.
pub publish_succeeds :
    (us : List Row) (s : State)
    → 0 < length us
    → (produce (map record_of us) s.log).1 ≡ none
    → publish true us s ≡ (
      record { rows = mark (ids_of us) s.rows; log = (produce (map record_of us) s.log).0 },
      pumped (length us),
    )
unfolding publish
publish_succeeds [] s h e = elim h [ ]
publish_succeeds (r ∷ us) s h e = rw (e, publish) refl
