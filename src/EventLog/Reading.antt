-- ===== src/EventLog/Reading.antt =====
-- A consumer of internal/eventlog/memlog.go that fetches until nothing is left.
use trade_execution_operatin.Common.{
  ℕ, zero, suc, ◌+◌, ◌-◌, ◌<◌, ◌≤◌, ◌≡◌, refl, sym, ap, ◌∙◌, true, false, List, [], ◌∷◌, ◌++◌, leb,
  Bool-cases, inl, inr, arith, length, take, drop, length-take, length-drop, take-append-drop,
}
use trade_execution_operatin.EventLog.{Record, MemLog, Reader, records_at, fetch_end, fetch, len}

-- Fetch until a fetch is empty.
unfoldable pub fetch_all : ℕ → ℕ → Reader → MemLog → List Record
fetch_all zero max r l = []
fetch_all (suc fuel) max r l =
    let out = fetch max r l in
    elim out.0 [ [] ↦ [] | x ∷ xs ↦ (x ∷ xs) ++ fetch_all fuel max out.1 l ]

all_or_nil : {A : Type 0} → List A → List A → List A
all_or_nil [] rest = []
all_or_nil (x ∷ xs) rest = (x ∷ xs) ++ rest

all_or_nil-append :
    {A : Type 0} (xs rest : List A) → 0 < length xs → all_or_nil xs rest ≡ xs ++ rest
unfolding all_or_nil
all_or_nil-append [] rest h = elim h [ ]
all_or_nil-append (x ∷ xs) rest h = refl

drop_all : {A : Type 0} (n : ℕ) (xs : List A) → length xs ≤ n → drop n xs ≡ []
drop_all zero [] h = refl
drop_all zero (x ∷ xs) h = elim h [ ]
drop_all (suc n) [] h = refl
drop_all (suc n) (x ∷ xs) h = drop_all n xs (omega arith)

drop_nil : {A : Type 0} (n : ℕ) → drop {A = A} n [] ≡ []
drop_nil zero = refl
drop_nil (suc n) = refl

drop-drop : {A : Type 0} (m n : ℕ) (xs : List A) → drop m (drop n xs) ≡ drop (n + m) xs
drop-drop m zero xs = let e : m ≡ 0 + m = omega arith in ap (λ k. drop k xs) e
drop-drop m (suc n) [] = drop_nil m ∙ sym (drop_nil (suc n + m))
drop-drop m (suc n) (x ∷ xs) =
    let e : suc (n + m) ≡ suc n + m = omega arith in drop-drop m n xs ∙ ap (λ k. drop k (x ∷ xs)) e

-- What a fetch returns and where it leaves the reader, by whether anything is left.
fetched_none :
    (max : ℕ) (r : Reader) (l : MemLog)
    → leb (length (records_at r.topic r.partition l)) r.next ≡ true
    → fetch max r l ≡ ([], r)
unfolding fetch
fetched_none max r l e = rw e refl

fetched_some :
    (max : ℕ) (r : Reader) (l : MemLog)
    → leb (length (records_at r.topic r.partition l)) r.next ≡ false
    → fetch max r l ≡ (
      take
          (fetch_end (length (records_at r.topic r.partition l)) r.next max - r.next)
          (drop r.next (records_at r.topic r.partition l)),
      record r { next = fetch_end (length (records_at r.topic r.partition l)) r.next max },
    )
unfolding fetch
fetched_some max r l e = rw e refl

fetch_end_bounds :
    (count next max : ℕ)
    → next < count
    → (next < fetch_end count next max) × (fetch_end count next max ≤ count)
fetch_end_bounds count next max h = ground arith

fetch_all_step :
    (fuel max : ℕ) (r : Reader) (l : MemLog)
    → fetch_all (suc fuel) max r l
      ≡ all_or_nil (fetch max r l).0 (fetch_all fuel max (fetch max r l).1 l)
unfolding fetch_all all_or_nil
fetch_all_step fuel max r l = same (fetch max r l).0 _
  where
    same :
        (xs rest : List Record)
        → (elim xs [ [] ↦ [] | x ∷ ys ↦ (x ∷ ys) ++ rest ]) ≡ all_or_nil xs rest
    same [] rest = refl
    same (x ∷ xs) rest = refl

-- A consumer that fetches until nothing comes, however many records it asks for at a time, gets every
-- record of its partition from its position on, each once and in order, and it comes to an end: one
-- fetch more than there are such records is enough.
pub fetch_all-drop :
    (fuel max : ℕ) (r : Reader) (l : MemLog)
    → len r.topic r.partition l - r.next < fuel
    → fetch_all fuel max r l ≡ drop r.next (records_at r.topic r.partition l)
unfolding len all_or_nil
fetch_all-drop zero max r l h = absurd (omega arith)
fetch_all-drop (suc fuel) max r l h =
    let part = records_at r.topic r.partition l in
    let end = fetch_end (length part) r.next max in
    let after = record r { next = end } in
    fetch_all_step fuel max r l ∙ elim (Bool-cases (leb (length part) r.next)) [
      | inl none_left ↦
          ap (λ (o : List Record × Reader). all_or_nil o.0 (fetch_all fuel max o.1 l))
            (fetched_none max r l none_left)
          ∙ sym (drop_all r.next part (ground arith))
      | inr some_left ↦
          let bounds = fetch_end_bounds (length part) r.next max (ground arith) in
          let exact : r.next + (end - r.next) ≡ end = omega arith in
          ap (λ (o : List Record × Reader). all_or_nil o.0 (fetch_all fuel max o.1 l))
            (fetched_some max r l some_left)
          ∙ all_or_nil-append (take (end - r.next) (drop r.next part)) (fetch_all fuel max after l)
              (omega
                (arith, length-take (end - r.next) (drop r.next part), length-drop r.next part))
          ∙ ap (λ rest. take (end - r.next) (drop r.next part) ++ rest)
              (fetch_all-drop fuel max after l (omega arith)
                ∙ ap (λ k. drop k part) (sym exact)
                ∙ sym (drop-drop (end - r.next) r.next part))
          ∙ take-append-drop (end - r.next) (drop r.next part)
    ]
