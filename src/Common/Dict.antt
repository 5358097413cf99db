-- ===== src/Common/Dict.antt =====
-- Go maps with number keys, as association lists, and sets of numbers.
use trade_execution_operatin.Common.{
  ℕ, ◌≡◌, refl, Bool, false, ◌||◌, Option, none, some, List, [], ◌∷◌, arith, ◌==◌, ◌∙◌, Bool-cases,
  inl, inr, if◌then◌else◌,
}

abbrev pub Dict {ℓ} : Type ℓ → Type ℓ
Dict V = List (ℕ × V)

module _ {ℓ} {V : Type ℓ} where
  -- m[key] = v
  abbrev pub insert : ℕ → V → Dict V → Dict V
  insert key v [] = (key, v) ∷ []
  insert key v (old ∷ m) = if key == old.0 then (key, v) ∷ m else old ∷ insert key v m

  -- m[key], with its second result
  abbrev pub lookup : ℕ → Dict V → Option V
  lookup key [] = none
  lookup key (old ∷ m) = let later = lookup key m in if key == old.0 then some old.1 else later

  -- delete(m, key): every entry of the key goes, so that a stale one cannot come back.
  abbrev pub erase : ℕ → Dict V → Dict V
  erase key [] = []
  erase key (old ∷ m) = let later = erase key m in if key == old.0 then later else old ∷ later

  pub lookup-insert :
      (j k : ℕ) (v : V) (d : Dict V)
      → lookup j (insert k v d) ≡ (if j == k then some v else lookup j d)
  lookup-insert j k v [] = refl
  lookup-insert j k v (e ∷ d) = ground (arith, lookup-insert j k v d)

  -- Writing a value that is there already changes nothing.
  pub insert-same : (k : ℕ) (v : V) (d : Dict V) → lookup k d ≡ some v → insert k v d ≡ d
  insert-same k v [] h = cc
  insert-same k v ((j, w) ∷ d) h = ground (arith, insert-same k v d)

  pub lookup-erase :
      (j k : ℕ) (d : Dict V) → lookup j (erase k d) ≡ (if j == k then none else lookup j d)
  lookup-erase j k [] = ground arith
  lookup-erase j k (e ∷ d) = ground (arith, lookup-erase j k d)

module _ {ℓ} {V : Type ℓ} where
  abbrev pub Has : ℕ → Dict V → Type ℓ
  Has k d = (v : V) × (lookup k d ≡ some v)

  pub Has-insert : (j k : ℕ) (v : V) (d : Dict V) → Has j d → Has j (insert k v d)
  Has-insert j k v d (w, e) = elim (Bool-cases (j == k)) [
    | inl t ↦ (v, lookup-insert j k v d ∙ rw t refl)
    | inr f ↦ (w, lookup-insert j k v d ∙ rw f e)
  ]

  pub Has-inserted : (k : ℕ) (v : V) (d : Dict V) → Has k (insert k v d)
  Has-inserted k v d = (v, lookup-insert k k v d ∙ ground arith)

-- map[uuid.UUID]struct{}: a set.
abbrev pub contains : ℕ → List ℕ → Bool
contains k [] = false
contains k (x ∷ xs) = (k == x) || contains k xs

abbrev pub remove : ℕ → List ℕ → List ℕ
remove k [] = []
remove k (x ∷ xs) = let rest = remove k xs in if k == x then rest else x ∷ rest

pub contains-remove :
    (j k : ℕ) (xs : List ℕ) → contains j (remove k xs) ≡ (if j == k then false else contains j xs)
contains-remove j k [] = ground arith
contains-remove j k (x ∷ xs) = ground (arith, contains-remove j k xs)
