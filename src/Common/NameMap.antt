-- ===== src/Common/NameMap.antt =====
-- Go maps with string keys, as association lists.
use trade_execution_operatin.Common.{
  ℕ, ◌≡◌, refl, sym, ◌∙◌, ap, true, false, Option, none, some, List, [], ◌∷◌, Bool-cases, inl, inr,
  if◌then◌else◌,
}
use trade_execution_operatin.Common.Names.{name_eq, name_eq_sound, false-ne-true}

abbrev pub NameMap {ℓ} : Type ℓ → Type ℓ
NameMap V = List (List ℕ × V)

module _ {ℓ} {V : Type ℓ} where
  -- m[key] = v
  unfoldable pub put : List ℕ → V → NameMap V → NameMap V
  put key v [] = (key, v) ∷ []
  put key v (old ∷ m) =
      let rest = put key v m in if name_eq key old.0 then (key, v) ∷ m else old ∷ rest

  -- m[key], with its second result
  unfoldable pub find : List ℕ → NameMap V → Option V
  find key [] = none
  find key (old ∷ m) = let later = find key m in if name_eq key old.0 then some old.1 else later

  -- The keys, in the order of the list (a range over the map visits them in some order).
  unfoldable pub keys : NameMap V → List (List ℕ)
  keys [] = []
  keys (old ∷ m) = old.0 ∷ keys m

clash : (j k o : List ℕ) → name_eq j o ≡ true → name_eq j k ≡ true → name_eq k o ≡ false → ⊥
clash j k o a b c = false-ne-true (sym c ∙ ap (λ x. name_eq x o) (sym (name_eq_sound j k b)) ∙ a)

same_key : (j k o : List ℕ) → name_eq k o ≡ true → name_eq j o ≡ name_eq j k
same_key j k o e = ap (λ x. name_eq j x) (sym (name_eq_sound k o e))

module _ {ℓ} {V : Type ℓ} where
  pub find-put :
      (j k : List ℕ) (v : V) (m : NameMap V)
      → find j (put k v m) ≡ (if name_eq j k then some v else find j m)
  unfolding find put
  find-put j k v [] = refl
  find-put j k v (old ∷ m) = elim (Bool-cases (name_eq k old.0)) [
    | inl same ↦
        rw (same, same_key j k old.0 same)
          (elim (Bool-cases (name_eq j k)) [ inl e ↦ rw e refl | inr e ↦ rw e refl ])
    | inr other ↦
        rw (other, find-put j k v m)
          (elim (Bool-cases (name_eq j old.0)) [
            | inl here ↦ elim (Bool-cases (name_eq j k)) [
              | inl e ↦ absurd (clash j k old.0 here e other)
              | inr e ↦ rw (here, e) refl
            ]
            | inr away ↦ rw away refl
          ])
  ]
