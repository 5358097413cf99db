-- ===== src/Outbox/Tests.antt =====
-- An outbox of three rows that is drained in batches of two: internal/outbox/relay.go.
use trade_execution_operatin.Common.{
  ℕ, ◌≡◌, refl, true, false, some, List, [], ◌∷◌, ◌++◌, arith, Bool, drop,
}
use trade_execution_operatin.Common.NameMap.{put, find}
use trade_execution_operatin.Common.Names.{name_eq}
use trade_execution_operatin.EventLog.{
  Record, MemLog, new_parts, new_mem_log, records_at, append, produce_one, produce, partition_for,
  murmur2, hash_from, mul32, Reader, len,
}
use trade_execution_operatin.EventLog.Indexed.{contents, destined, unknown_topic, produce-contents}
use trade_execution_operatin.EventLog.Reading.{fetch_all, fetch_all-drop}
use trade_execution_operatin.Outbox.{Row, State, unpublished, Drained, drain}
use trade_execution_operatin.Outbox.Batches.{waiting}
use trade_execution_operatin.Outbox.Draining.{succeeds, Emptied, drain_empties}

abbrev inbound : List ℕ
inbound = 105 ∷ 110 ∷ []

abbrev log : MemLog
unfolding new_mem_log
log = new_mem_log ((inbound, 4) ∷ [])

abbrev row : ℕ → List ℕ → ℕ → Bool → Row
row id key value published = record {
  id = id;
  topic = inbound;
  key = key;
  payload = value ∷ [];
  published = published;
}

abbrev state : State
unfolding new_mem_log
state = record {
  rows =
      row 1 (65 ∷ []) 10 true
      ∷ row 2 (65 ∷ []) 20 false
      ∷ row 4 (66 ∷ []) 40 false
      ∷ row 5 (65 ∷ []) 50 false
      ∷ [];
  log = log;
}

drain_empties_example : (d : Drained) × ((drain 4 succeeds 2 state 0 ≡ some d) × Emptied state 0 d)
unfolding unpublished unknown_topic new_parts put find name_eq state
drain_empties_example =
    drain_empties 4 2 state (omega arith) (omega arith)
      (
        (omega arith, (omega arith, (omega arith, tt))),
        ((omega arith, (omega arith, tt)), ((omega arith, tt), (tt, tt))),
      )
      refl

-- The partition of the key A holds its two records, in the order of the outbox.
sent :
    contents inbound (partition_for (65 ∷ []) 4) (produce (waiting state) log).0
    ≡ (65 ∷ [], 20 ∷ []) ∷ (65 ∷ [], 50 ∷ []) ∷ []
unfolding records_at produce find unpublished state new_parts put name_eq produce_one append
    partition_for murmur2 mul32 hash_from
sent = refl

abbrev twice : MemLog
unfolding new_mem_log
twice = record log { duplicate = some (λ (r : Record). name_eq r.key (66 ∷ [])) }

produce-contents_example :
    (contents inbound 3 (produce (waiting state) twice).0
      ≡ contents inbound 3 twice ++ destined twice.parts twice.duplicate inbound 3 (waiting state))
    × ((produce (waiting state) twice).1 ≡ unknown_topic twice.parts (waiting state))
produce-contents_example = produce-contents inbound 3 (waiting state) twice

abbrev consumer : Reader
unfolding partition_for
consumer = record { topic = inbound; partition = partition_for (65 ∷ []) 4; next = 0 }

abbrev full : MemLog
unfolding produce
full = (produce (waiting state) log).0

fetch_all-drop_example :
    fetch_all 3 1 consumer full ≡ drop 0 (records_at inbound consumer.partition full)
unfolding len records_at find full unpublished state new_parts put name_eq produce_one append
    consumer murmur2 mul32 hash_from
fetch_all-drop_example = fetch_all-drop 3 1 consumer full (omega arith)
