-- ===== src/EventLog.antt =====
-- internal/eventlog: eventlog.go (the partitioner) and memlog.go (the log in memory).
-- A lock makes each operation one step. A nil map reads as empty.
pub mod Indexed
pub mod Offsets
pub mod Reading
mod Tests
use Prim.Native.Nat.{bit_or, bit_xor, bit_and}
use trade_execution_operatin.Common.{
  ℕ, ◌+◌, ◌-◌, ◌*◌, ◌/◌, ◌%◌, ◌^◌, Bool, true, false, ◌&&◌, Option, none, some, List, [], ◌∷◌, ◌++◌,
  ltb, leb, ◌==◌, if◌then◌else◌, length, take, drop,
}
use trade_execution_operatin.Common.Int.{ℤ, pos, negsuc, ltb_ℤ, pos_part}
use trade_execution_operatin.Common.Dict.{Dict, insert, lookup}
use trade_execution_operatin.Common.NameMap.{NameMap, put, find}
use trade_execution_operatin.Book.{Name}

-- type Record. The key and the value are bytes.
pub record Record : Type 0 where
  pub topic : Name
  pub partition : ℕ
  pub offset : ℕ
  pub key : Name
  pub value : List ℕ

abbrev pub u32 : ℕ
u32 = 4294967296

-- The constants seed and m.
abbrev pub seed : ℕ
seed = 0x9747b28c

abbrev pub mult : ℕ
mult = 0x5bd1e995

unfoldable pub mul32 : ℕ → ℕ → ℕ
mul32 a b = (a * b) % u32

-- One round of the loop, for a block of four bytes.
unfoldable pub mix : ℕ → ℕ → ℕ → ℕ → ℕ → ℕ
mix h a b c d =
    let k = bit_or (bit_or (bit_or a (b * 256)) (c * 65536)) (d * 16777216) in
    let k1 = mul32 k mult in
    let k2 = bit_xor k1 (k1 / 16777216) in bit_xor (mul32 h mult) (mul32 k2 mult)

-- The loop, and the switch on the one to three bytes that are left.
unfoldable pub hash_from : ℕ → List ℕ → ℕ
hash_from h [] = h
hash_from h (a ∷ []) = mul32 (bit_xor h a) mult
hash_from h (a ∷ b ∷ []) = mul32 (bit_xor (bit_xor h (b * 256)) a) mult
hash_from h (a ∷ b ∷ c ∷ []) = mul32 (bit_xor (bit_xor (bit_xor h (c * 65536)) (b * 256)) a) mult
hash_from h (a ∷ b ∷ c ∷ d ∷ rest) = hash_from (mix h a b c d) rest

-- murmur2
unfoldable pub murmur2 : List ℕ → ℕ
murmur2 bytes =
    let h = hash_from (bit_xor seed (length bytes % u32)) bytes in
    let h1 = mul32 (bit_xor h (h / 8192)) mult in bit_xor h1 (h1 / 32768)

-- PartitionFor
unfoldable pub partition_for : Name → ℕ → ℕ
partition_for key partitions =
    if leb partitions 1 then 0 else bit_and (murmur2 key) 0x7fffffff % partitions

pub record MemLog : Type 0 where
  pub parts : NameMap ℕ
  pub records : NameMap (Dict (List Record))
  pub duplicate : Option (Record → Bool)

-- NewMemLog: at least one partition for each topic.
abbrev pub at_least_one : ℕ → ℕ
at_least_one n = if ltb n 1 then 1 else n

unfoldable pub new_parts : NameMap ℕ → NameMap ℕ → NameMap ℕ
new_parts [] m = m
new_parts (t ∷ topics) m = new_parts topics (put t.0 (at_least_one t.1) m)

unfoldable pub new_mem_log : NameMap ℕ → MemLog
new_mem_log topics = record { parts = new_parts topics []; records = []; duplicate = none }

-- DuplicateWhen
abbrev pub duplicate_when : (Record → Bool) → MemLog → MemLog
duplicate_when fn l = record l { duplicate = some fn }

abbrev pub or_empty : {A : Type 0} → Option (List A) → List A
or_empty none = []
or_empty (some xs) = xs

-- l.records[topic][partition]
abbrev pub partition_of : Option (Dict (List Record)) → ℕ → List Record
partition_of none p = []
partition_of (some m) p = or_empty (lookup p m)

unfoldable pub records_at : Name → ℕ → MemLog → List Record
records_at topic p l = partition_of (find topic l.records) p

abbrev pub by_partition : Option (Dict (List Record)) → Dict (List Record)
by_partition none = []
by_partition (some m) = m

-- append
unfoldable pub append : Record → ℕ → MemLog → MemLog
append r p l =
    let old = records_at r.topic p l in
    let r' = record r { partition = p; offset = length old } in
    record l {
      records =
          put r.topic (insert p (old ++ r' ∷ []) (by_partition (find r.topic l.records))) l.records;
    }

abbrev pub is_duplicated : Option (Record → Bool) → Record → Bool
is_duplicated none r = false
is_duplicated (some fn) r = fn r

-- One round of Produce, for a topic of n partitions.
unfoldable pub produce_one : Record → ℕ → MemLog → MemLog
produce_one r n l =
    let p = partition_for r.key n in
    let once = append r p l in if is_duplicated l.duplicate r then append r p once else once

-- Produce: what was appended before an unknown topic stays. The result is ErrUnknownTopic.
unfoldable pub produce : List Record → MemLog → MemLog × Option Name
produce [] l = (l, none)
produce (r ∷ rs) l = elim (find r.topic l.parts) [
  | none ↦ (l, some r.topic)
  | some n ↦ produce rs (produce_one r n l)
]

-- Len
unfoldable pub len : Name → ℕ → MemLog → ℕ
len topic p l = length (records_at topic p l)

pub record Reader : Type 0 where
  pub topic : Name
  pub partition : ℕ
  pub next : ℕ

-- Reader; `none` is ErrUnknownTopic.
unfoldable pub reader : Name → ℕ → ℤ → MemLog → Option Reader
reader topic p from l = elim (find topic l.parts) [
  | none ↦ none
  | some n ↦ some (record {
    topic = topic;
    partition = p;
    next = if ltb_ℤ from (pos 0) then 0 else pos_part from;
  })
]

-- The end of what a fetch returns: all that is there, or `max` records if that is positive.
abbrev pub fetch_end : ℕ → ℕ → ℕ → ℕ
fetch_end count next max = if ltb 0 max && ltb max (count - next) then next + max else count

-- Fetch, in a context that is not cancelled.
unfoldable pub fetch : ℕ → Reader → MemLog → List Record × Reader
fetch max r l =
    let part = records_at r.topic r.partition l in
    let end = fetch_end (length part) r.next max in
    if leb (length part) r.next
    then ([], r)
    else (take (end - r.next) (drop r.next part), record r { next = end })

-- SeekTo
abbrev pub seek_to : ℕ → Reader → Reader
seek_to offset r = record r { next = offset }
