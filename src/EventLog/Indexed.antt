-- ===== src/EventLog/Indexed.antt =====
-- What Produce of internal/eventlog/memlog.go leaves in the partitions.
use mathlib.Core.List.{map-append}
use trade_execution_operatin.Common.{
  ℕ, ◌≡◌, refl, sym, ap, ◌∙◌, Bool, true, false, ◌&&◌, Option, none, some, List, [], ◌∷◌, ◌++◌, map,
  ◌==◌, ==_iff, if◌then◌else◌, Bool-cases, Option-cases, inl, inr, arith, length,
}
use mathlib.Core.List.{append_assoc, append-nil}
use trade_execution_operatin.Common.Dict.{Dict, insert, lookup-insert}
use trade_execution_operatin.Common.NameMap.{NameMap, find, find-put}
use trade_execution_operatin.Common.Names.{name_eq, name_eq_sound}
use trade_execution_operatin.Book.{Name}
use trade_execution_operatin.EventLog.{
  Record, MemLog, partition_for, records_at, partition_of, or_empty, by_partition, append,
  is_duplicated, produce_one, produce,
}

-- What a producer sends and a consumer reads, without the place in the log.
abbrev pub content : Record → Name × List ℕ
content r = (r.key, r.value)

abbrev pub contents : Name → ℕ → MemLog → List (Name × List ℕ)
contents topic p l = map content (records_at topic p l)

abbrev pub is_place : Name → ℕ → Name → ℕ → Bool
is_place topic q t p = name_eq topic t && (q == p)

partition_of-insert :
    (m : Option (Dict (List Record))) (q p : ℕ) (xs : List Record)
    → partition_of (some (insert p xs (by_partition m))) q
      ≡ (if q == p then xs else partition_of m q)
partition_of-insert none q p xs =
    ap or_empty (lookup-insert q p xs [])
    ∙ elim (Bool-cases (q == p)) [ inl e ↦ rw e refl | inr e ↦ rw e refl ]
partition_of-insert (some m) q p xs =
    ap or_empty (lookup-insert q p xs m)
    ∙ elim (Bool-cases (q == p)) [ inl e ↦ rw e refl | inr e ↦ rw e refl ]

-- The record as it is written.
abbrev pub placed : Record → ℕ → MemLog → Record
placed r p l = record r { partition = p; offset = length (records_at r.topic p l) }

pub records_at-append :
    (topic : Name) (q : ℕ) (r : Record) (p : ℕ) (l : MemLog)
    → records_at topic q (append r p l) ≡ (
        if is_place topic q r.topic p
        then records_at r.topic p l ++ placed r p l ∷ []
        else records_at topic q l)
unfolding records_at append
records_at-append topic q r p l =
    let new =
      insert p (records_at r.topic p l ++ placed r p l ∷ [])
        (by_partition (find r.topic l.records)) in
    ap (λ m. partition_of m q) (find-put topic r.topic new l.records)
    ∙ elim (Bool-cases (name_eq topic r.topic)) [
      | inl same ↦ rw same (
          partition_of-insert (find r.topic l.records) q p
            (records_at r.topic p l ++ placed r p l ∷ [])
          ∙ elim (Bool-cases (q == p)) [
            | inl e ↦ rw e refl
            | inr e ↦ rw e (
                ap (λ t. partition_of (find t l.records) q)
                  (sym (name_eq_sound topic r.topic same)))
          ])
      | inr other ↦ rw other refl
    ]

abbrev one_if : Bool → Name × List ℕ → List (Name × List ℕ)
one_if b c = if b then c ∷ [] else []

contents-append :
    (topic : Name) (q : ℕ) (r : Record) (p : ℕ) (l : MemLog)
    → contents topic q (append r p l)
      ≡ contents topic q l ++ one_if (is_place topic q r.topic p) (content r)
contents-append topic q r p l =
    ap (map content) (records_at-append topic q r p l)
    ∙ elim (Bool-cases (is_place topic q r.topic p)) [
      | inl here ↦
          let (st, sq) = both (name_eq topic r.topic) (q == p) here in
          rw here (
            map-append content (records_at r.topic p l) (placed r p l ∷ [])
            ∙ ap (λ t. contents t p l ++ content r ∷ []) (sym (name_eq_sound topic r.topic st))
            ∙ ap (λ k. contents topic k l ++ content r ∷ []) (sym ((==_iff q p).0 sq)))
      | inr away ↦ rw away (sym (append-nil (contents topic q l)))
    ]
  where
    both : (a b : Bool) → (a && b) ≡ true → (a ≡ true) × (b ≡ true)
    both a b h = ground arith

module _ (parts : NameMap ℕ) (duplicate : Option (Record → Bool)) (topic : Name) (q : ℕ) where
  -- What one record adds to a partition: itself, or itself twice.
  abbrev pub copies : Record → ℕ → List (Name × List ℕ)
  copies r n =
      if name_eq topic r.topic && (q == partition_for r.key n)
      then content r ∷ (if is_duplicated duplicate r then content r ∷ [] else [])
      else []

  -- What a batch adds to a partition, in the order of the batch, up to the first unknown topic.
  unfoldable pub destined : List Record → List (Name × List ℕ)
  destined [] = []
  destined (r ∷ rs) = elim (find r.topic parts) [ none ↦ [] | some n ↦ copies r n ++ destined rs ]

-- The topic that Produce refuses.
unfoldable pub unknown_topic : NameMap ℕ → List Record → Option Name
unknown_topic parts [] = none
unknown_topic parts (r ∷ rs) = elim (find r.topic parts) [
  | none ↦ some r.topic
  | some n ↦ unknown_topic parts rs
]

contents-produce_one :
    (topic : Name) (q : ℕ) (r : Record) (n : ℕ) (l : MemLog)
    → contents topic q (produce_one r n l)
      ≡ contents topic q l ++ copies l.parts l.duplicate topic q r n
unfolding produce_one append
contents-produce_one topic q r n l =
    let p = partition_for r.key n in
    elim (Bool-cases (is_duplicated l.duplicate r)) [
      | inl twice ↦ rw twice (
          contents-append topic q r p (append r p l)
          ∙ ap (λ c. c ++ one_if (is_place topic q r.topic p) (content r))
              (contents-append topic q r p l)
          ∙ append_assoc (contents topic q l) _ _
          ∙ ap (λ c. contents topic q l ++ c) (twice_if (is_place topic q r.topic p) (content r)))
      | inr once ↦ rw once (contents-append topic q r p l)
    ]
  where
    twice_if :
        (b : Bool) (c : Name × List ℕ) → one_if b c ++ one_if b c ≡ (if b then c ∷ c ∷ [] else [])
    twice_if true c = refl
    twice_if false c = refl

pub produce_one-parts : (r : Record) (n : ℕ) (l : MemLog) → (produce_one r n l).parts ≡ l.parts
unfolding produce_one append
produce_one-parts r n l = elim (Bool-cases (is_duplicated l.duplicate r)) [
  | inl e ↦ rw e refl
  | inr e ↦ rw e refl
]

produce_one-duplicate :
    (r : Record) (n : ℕ) (l : MemLog) → (produce_one r n l).duplicate ≡ l.duplicate
unfolding produce_one append
produce_one-duplicate r n l = elim (Bool-cases (is_duplicated l.duplicate r)) [
  | inl e ↦ rw e refl
  | inr e ↦ rw e refl
]

-- Produce appends in order and loses nothing: to each partition of each topic it adds the records of
-- the batch whose topic is that one and whose key is hashed there, in the order of the batch, each twice
-- in a row where the duplication hook says so, and nothing else. It fails exactly if a record's topic is
-- unknown, and then the records before that one have been appended.
pub produce-contents :
    (topic : Name) (q : ℕ) (rs : List Record) (l : MemLog)
    → (contents topic q (produce rs l).0
        ≡ contents topic q l ++ destined l.parts l.duplicate topic q rs)
      × ((produce rs l).1 ≡ unknown_topic l.parts rs)
unfolding produce destined unknown_topic
produce-contents topic q [] l = (sym (append-nil (contents topic q l)), refl)
produce-contents topic q (r ∷ rs) l = elim (Option-cases (find r.topic l.parts)) [
  | inl e ↦ rw (e, produce, destined, unknown_topic) (sym (append-nil (contents topic q l)), refl)
  | inr (n, e) ↦
      let (c, o) = produce-contents topic q rs (produce_one r n l) in
      let same = produce_one-parts r n l in
      let hook = produce_one-duplicate r n l in
      rw (e, produce, destined, unknown_topic)
        (
          c
              ∙ ap
                  (λ xs.
                    xs
                    ++ destined (produce_one r n l).parts (produce_one r n l).duplicate topic q rs)
                  (contents-produce_one topic q r n l)
              ∙ append_assoc (contents topic q l) _ _
              ∙ ap
                  (λ ps.
                    contents topic q l
                    ++ (copies l.parts l.duplicate topic q r n
                        ++ destined ps (produce_one r n l).duplicate topic q rs))
                  same
              ∙ ap
                  (λ d.
                    contents topic q l
                    ++ (copies l.parts l.duplicate topic q r n ++ destined l.parts d topic q rs))
                  hook,
          o ∙ ap (λ ps. unknown_topic ps rs) same,
        )
]
