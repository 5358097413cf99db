-- ===== src/Outbox/Draining.antt =====
-- Drain of internal/outbox/relay.go: it ends with every row published, in the order of the ids.
use mathlib.Core.List.{map-append}
use trade_execution_operatin.Common.{
  ℕ, zero, suc, ◌+◌, ◌-◌, ◌<◌, ◌≡◌, refl, sym, ap, ◌∙◌, Bool, true, Option, none, some, List, [],
  ◌∷◌, ◌++◌, map, Bool-cases, ltb, ltb→lt, inl, inr, arith, length, take, drop, length-take,
  length-drop, take-append-drop,
}
use trade_execution_operatin.Book.{Name}
use trade_execution_operatin.EventLog.{MemLog, produce}
use trade_execution_operatin.EventLog.Indexed.{unknown_topic}
use trade_execution_operatin.Outbox.{
  Row, State, unpublished, record_of, ids_of, pumped, publish, pump_once, Drained, after_pump,
  drain,
}
use trade_execution_operatin.Outbox.Marking.{Ascending, mark-Ascending, unpublished-mark}
use trade_execution_operatin.Outbox.Batches.{
  produce-append, unknown_topic-append, waiting, after, publish_succeeds,
}

abbrev pub succeeds : ℕ → Bool
succeeds k = true

drain_ends :
    (fuel batch : ℕ) (s : State) (total : ℕ)
    → pump_once true batch s ≡ (s, pumped 0)
    → drain (suc fuel) succeeds batch s total
      ≡ some (record { state = s; total = total; failure = none })
unfolding drain after_pump
drain_ends fuel batch s total e = ap (λ o. after_pump o total (drain fuel succeeds batch)) e

drain_goes_on :
    (fuel batch : ℕ) (s s' : State) (total n : ℕ)
    → pump_once true batch s ≡ (s', pumped (suc n))
    → drain (suc fuel) succeeds batch s total ≡ drain fuel succeeds batch s' (total + suc n)
unfolding drain after_pump
drain_goes_on fuel batch s s' total n e = ap (λ o. after_pump o total (drain fuel succeeds batch)) e

take_nil : (n : ℕ) → take {A = Row} n [] ≡ []
take_nil zero = refl
take_nil (suc n) = refl

pumps_nothing :
    (batch : ℕ) (s : State) → unpublished s.rows ≡ [] → pump_once true batch s ≡ (s, pumped 0)
unfolding pump_once publish
pumps_nothing batch s e = rw (e, take_nil batch) refl

-- What a drain that succeeds leaves.
pub record Emptied (s : State) (total : ℕ) (d : Drained) : Type 0 where
  pub published : unpublished d.state.rows ≡ []
  pub sent : d.state.log ≡ (produce (waiting s) s.log).0
  pub counted : d.total ≡ total + length (unpublished s.rows)
  pub failure : d.failure ≡ none

no_rows : (us : List Row) → length us ≡ 0 → us ≡ []
no_rows [] e = refl
no_rows (u ∷ us) e = absurd (omega arith)

produce_nothing : (l : MemLog) → (produce [] l).0 ≡ l
unfolding produce
produce_nothing l = refl

module _ (batch : ℕ) (positive : 0 < batch) where
  abbrev sel : State → List Row
  sel s = take batch (unpublished s.rows)

  split_waiting :
      (s : State)
      → waiting s ≡ map record_of (sel s) ++ map record_of (drop batch (unpublished s.rows))
  split_waiting s =
      ap (map record_of) (sym (take-append-drop batch (unpublished s.rows)))
      ∙ map-append record_of (sel s) (drop batch (unpublished s.rows))

  length-sel :
      (s : State)
      → length (sel s) + (length (unpublished s.rows) - batch) ≡ length (unpublished s.rows)
  length-sel s = omega (arith, length-take batch (unpublished s.rows))

  -- What holds after a round, where the topics of the waiting rows are known.
  round_keeps :
      (s : State)
      → Ascending s.rows
      → unknown_topic s.log.parts (waiting s) ≡ none
      → ((produce (map record_of (sel s)) s.log).1 ≡ none)
        × ((waiting (after batch s) ≡ map record_of (drop batch (unpublished s.rows)))
            × ((unknown_topic (after batch s).log.parts (waiting (after batch s)) ≡ none)
                × ((produce (waiting (after batch s)) (after batch s).log).0
                    ≡ (produce (waiting s) s.log).0)))
  round_keeps s asc known =
      let front = map record_of (sel s) in
      let back = map record_of (drop batch (unpublished s.rows)) in
      let parts =
        unknown_topic-append s.log.parts front back
          (ap (unknown_topic s.log.parts) (sym (split_waiting s)) ∙ known) in
      let sent = produce-append front back s.log parts.0 in
      let left = ap (map record_of) (unpublished-mark batch s.rows asc) in
      (
        sent.1.0,
        (
          left,
          (
            ap (λ ps. unknown_topic ps (waiting (after batch s))) sent.1.1
                ∙ ap (unknown_topic s.log.parts) left
                ∙ parts.1,
            ap (λ rs. (produce rs (after batch s).log).0) left
                ∙ ap (λ (o : MemLog × Option Name). o.0)
                    (sym sent.0 ∙ ap (λ rs. produce rs s.log) (sym (split_waiting s))),
          ),
        ),
      )

  pumps_some :
      (s : State)
      → 0 < length (unpublished s.rows)
      → Ascending s.rows
      → unknown_topic s.log.parts (waiting s) ≡ none
      → pump_once true batch s ≡ (after batch s, pumped (length (sel s)))
  unfolding pump_once
  pumps_some s h asc known =
      publish_succeeds (sel s) s (omega (arith, length-take batch (unpublished s.rows)))
        (round_keeps s asc known).0

  abbrev Drains : ℕ → State → ℕ → Type 0
  Drains fuel s total =
      (d : Drained) × ((drain fuel succeeds batch s total ≡ some d) × Emptied s total d)

  Drains-later :
      (fuel n : ℕ) (s : State) (total : ℕ)
      → length (sel s) ≡ suc n
      → 0 < length (unpublished s.rows)
      → Ascending s.rows
      → unknown_topic s.log.parts (waiting s) ≡ none
      → Drains fuel (after batch s) (total + suc n)
      → Drains (suc fuel) s total
  Drains-later fuel n s total e h asc known (d, (run, emptied)) =
      let keeps = round_keeps s asc known in
      let left = ap length (unpublished-mark batch s.rows asc) in
      (
        d,
        (
          drain_goes_on fuel batch s (after batch s) total n
                (pumps_some s h asc known ∙ ap (λ k. (after batch s, pumped k)) e)
              ∙ run,
          record {
            published = emptied.published;
            sent = emptied.sent ∙ keeps.1.1.1;
            counted =
                emptied.counted
                ∙ omega (arith, left, length-drop batch (unpublished s.rows), length-sel s, e);
            failure = emptied.failure;
          },
        ),
      )

  pred : (k : ℕ) → 0 < k → (n : ℕ) × (k ≡ suc n)
  pred zero h = absurd (omega arith)
  pred (suc n) h = (n, refl)

  drains :
      (fuel : ℕ) (s : State) (total : ℕ)
      → length (unpublished s.rows) < fuel
      → Ascending s.rows
      → unknown_topic s.log.parts (waiting s) ≡ none
      → Drains fuel s total
  drains zero s total h asc known = absurd (omega arith)
  drains (suc fuel) s total h asc known = elim (Bool-cases (ltb 0 (length (unpublished s.rows)))) [
    | inl more ↦
        let some_left : 0 < length (unpublished s.rows) = ltb→lt 0 _ more in
        let (n, e) =
          pred (length (sel s)) (omega (arith, length-take batch (unpublished s.rows))) in
        let keeps = round_keeps s asc known in
        let left = ap length (unpublished-mark batch s.rows asc) in
        Drains-later fuel n s total e some_left asc known (
          drains fuel (after batch s) (total + suc n)
            (omega (arith, left, length-drop batch (unpublished s.rows)))
            (mark-Ascending (ids_of (sel s)) s.rows asc) keeps.1.1.0)
    | inr none_left ↦
        let e = no_rows (unpublished s.rows) (ground arith) in
        (
          record { state = s; total = total; failure = none },
          (
            drain_ends fuel batch s total (pumps_nothing batch s e),
            record {
              published = e;
              sent =
                  sym (ap (λ us. (produce (map record_of us) s.log).0) e ∙ produce_nothing s.log);
              counted = omega (arith, ap length e);
              failure = refl;
            },
          ),
        )
  ]

-- Drain ends, and it empties the outbox. Where the marking statements succeed, the batch is at least one
-- row, the ids ascend and the topic of every waiting row is one of the log's, one round more than there
-- are waiting rows is enough: every row is published, the count is the number of rows that waited, and
-- the log is what one Produce of all of them, in the order of their ids, makes of it, whatever the batch.
pub drain_empties :
    (fuel batch : ℕ) (s : State)
    → 0 < batch
    → length (unpublished s.rows) < fuel
    → Ascending s.rows
    → unknown_topic s.log.parts (waiting s) ≡ none
    → (d : Drained) × ((drain fuel succeeds batch s 0 ≡ some d) × Emptied s 0 d)
drain_empties fuel batch s positive h asc known = drains batch positive fuel s 0 h asc known
