-- ===== src/Engine/Replay/Format/Canonical.antt =====
-- The bytes of a snapshot do not depend on the order of the map: internal/engine/replay.go.
use mathlib.Core.Path.{subst}
use trade_execution_operatin.Common.{
  ◌≡◌, refl, sym, ap, ◌∙◌, List, [], ◌∷◌, true, false, not, ◌||◌, Bool-cases, inl, inr, All,
  All-map,
}
use trade_execution_operatin.Common.NameMap.{NameMap, find, keys}
use trade_execution_operatin.Common.Names.{
  name_eq, name_ltb, name_eq_sound, name_eq_refl, name_ltb_irrefl, name_ltb_trans, name_ltb_connex,
  false-ne-true,
}
use trade_execution_operatin.Book.{Name}
use trade_execution_operatin.Engine.Position.{PositionState}
use trade_execution_operatin.Engine.Replay.{ReplayState, position_of}
use trade_execution_operatin.Engine.Replay.Same.{Same, SamePositions}
use trade_execution_operatin.Engine.Replay.Format.{
  is_empty, held, insert_sorted, sort, write_positions, encode,
}
use trade_execution_operatin.Engine.Replay.Format.Symbols.{
  is_in, is_in-sort, All-insert_sorted, or_first,
}

abbrev pub Strict : List Name → Type 0
Strict [] = Unit
Strict (x ∷ xs) = All (λ y. name_ltb x y ≡ true) xs × Strict xs

-- The keys of a Go map are distinct.
abbrev pub Distinct : List Name → Type 0
Distinct [] = Unit
Distinct (x ∷ xs) = (is_in x xs ≡ false) × Distinct xs

insert_sorted-Strict :
    (y : Name) (ys : List Name) → is_in y ys ≡ false → Strict ys → Strict (insert_sorted y ys)
unfolding insert_sorted
insert_sorted-Strict y [] n h = (tt, tt)
insert_sorted-Strict y (z ∷ ys) n h =
    let apart = or_first (name_eq y z) (is_in y ys) n in
    elim (Bool-cases (name_ltb z y)) [
      | inl e ↦ rw e (All-insert_sorted _ y ys e h.0, insert_sorted-Strict y ys apart.1 h.1)
      | inr e ↦
          let less = name_ltb_connex z y e (flip y z apart.0) in
          rw e ((less, All-map ys (λ w lt. name_ltb_trans y z w less lt) h.0), h)
    ]
  where
    flip : (a b : Name) → name_eq a b ≡ false → name_eq b a ≡ false
    flip a b h = elim (Bool-cases (name_eq b a)) [
      | inl e ↦
          absurd (false-ne-true (sym h ∙ ap (name_eq a) (name_eq_sound b a e) ∙ name_eq_refl a))
      | inr e ↦ e
    ]

sort-Strict : (ys : List Name) → Distinct ys → Strict (sort ys)
unfolding sort
sort-Strict [] h = tt
sort-Strict (y ∷ ys) h =
    insert_sorted-Strict y (sort ys) (is_in-sort y ys ∙ h.0) (sort-Strict ys h.1)

All-is_in : (P : Name → Type 0) (x : Name) (xs : List Name) → All P xs → is_in x xs ≡ true → P x
All-is_in P x [] h e = absurd (false-ne-true e)
All-is_in P x (y ∷ ys) h e = elim (Bool-cases (name_eq x y)) [
  | inl same ↦ subst P (sym (name_eq_sound x y same)) h.0
  | inr other ↦ All-is_in P x ys h.1 (rw other at e)
]

-- The head of a strict list is not in its tail.
head_once : (x : Name) (xs : List Name) → All (λ y. name_ltb x y ≡ true) xs → is_in x xs ≡ false
head_once x xs h = elim (Bool-cases (is_in x xs)) [
  | inl e ↦
      absurd
        (false-ne-true (sym (name_ltb_irrefl x) ∙ All-is_in (λ y. name_ltb x y ≡ true) x xs h e))
  | inr e ↦ e
]

same_tail :
    (z x : Name) (xs ys : List Name)
    → is_in x xs ≡ false
    → is_in x ys ≡ false
    → is_in z (x ∷ xs) ≡ is_in z (x ∷ ys)
    → is_in z xs ≡ is_in z ys
same_tail z x xs ys a b e = elim (Bool-cases (name_eq z x)) [
  | inl same ↦ rw (name_eq_sound z x same) (a ∙ sym b)
  | inr other ↦ rw other at e
]

heads_agree :
    (x y : Name) (xs ys : List Name)
    → Strict (x ∷ xs)
    → Strict (y ∷ ys)
    → is_in x (y ∷ ys) ≡ true
    → is_in y (x ∷ xs) ≡ true
    → x ≡ y
heads_agree x y xs ys h k a b = elim (Bool-cases (name_eq x y)) [
  | inl same ↦ name_eq_sound x y same
  | inr other ↦ elim (Bool-cases (name_eq y x)) [
    | inl same ↦ sym (name_eq_sound y x same)
    | inr other' ↦
        let lt = All-is_in (λ z. name_ltb y z ≡ true) x ys k.0 (rw other at a) in
        let gt = All-is_in (λ z. name_ltb x z ≡ true) y xs h.0 (rw other' at b) in
        absurd (false-ne-true (sym (name_ltb_irrefl x) ∙ name_ltb_trans x y x gt lt))
  ]
]

-- A sorted list without duplicates is determined by what is in it.
Strict-unique :
    (xs ys : List Name) → Strict xs → Strict ys → ((z : Name) → is_in z xs ≡ is_in z ys) → xs ≡ ys
Strict-unique [] [] h k e = refl
Strict-unique [] (y ∷ ys) h k e =
    absurd (false-ne-true (e y ∙ ap (λ b. b || is_in y ys) (name_eq_refl y)))
Strict-unique (x ∷ xs) [] h k e =
    absurd (false-ne-true (sym (e x) ∙ ap (λ b. b || is_in x xs) (name_eq_refl x)))
Strict-unique (x ∷ xs) (y ∷ ys) h k e =
    let at_x : is_in x (x ∷ xs) ≡ true = ap (λ b. b || is_in x xs) (name_eq_refl x) in
    let at_y : is_in y (y ∷ ys) ≡ true = ap (λ b. b || is_in y ys) (name_eq_refl y) in
    let same = heads_agree x y xs ys h k (sym (e x) ∙ at_x) (e y ∙ at_y) in
    let k' = subst (λ z. Strict (z ∷ ys)) (sym same) k in
    let e' = subst (λ w. (z : Name) → is_in z (x ∷ xs) ≡ is_in z (w ∷ ys)) (sym same) e in
    let tails =
      Strict-unique xs ys h.1 k'.1
        λ z. same_tail z x xs ys (head_once x xs h.0) (head_once x ys k'.0) (e' z) in
    ap (λ l. x ∷ l) tails ∙ ap (λ w. w ∷ ys) same

absent-held :
    (x : Name) (m : NameMap PositionState) → is_in x (keys m) ≡ false → is_in x (held m) ≡ false
unfolding keys held
absent-held x [] h = refl
absent-held x (e ∷ m) h =
    let apart = or_first (name_eq x e.0) (is_in x (keys m)) h in
    elim (Bool-cases (is_empty e.1)) [
      | inl a ↦ rw a (absent-held x m apart.1)
      | inr a ↦ rw (a, apart.0) (absent-held x m apart.1)
    ]

held-Distinct : (m : NameMap PositionState) → Distinct (keys m) → Distinct (held m)
unfolding keys held
held-Distinct [] h = tt
held-Distinct (e ∷ m) h = elim (Bool-cases (is_empty e.1)) [
  | inl a ↦ rw a (held-Distinct m h.1)
  | inr a ↦ rw a (absent-held e.0 m h.0, held-Distinct m h.1)
]

is_in-held :
    (x : Name) (m : NameMap PositionState)
    → Distinct (keys m)
    → is_in x (held m) ≡ not (is_empty (position_of x m))
unfolding keys held find
is_in-held x [] h = refl
is_in-held x (e ∷ m) h = elim (Bool-cases (name_eq x e.0)) [
  | inl here ↦
      let gone =
        subst (λ k. is_in k (held m) ≡ false) (sym (name_eq_sound x e.0 here))
          (absent-held e.0 m h.0) in
      elim (Bool-cases (is_empty e.1)) [
        | inl a ↦ rw (here, a) gone
        | inr a ↦ rw (here, a) (ap (λ b. b || is_in x (held m)) here)
      ]
  | inr away ↦ elim (Bool-cases (is_empty e.1)) [
    | inl a ↦ rw (away, a) (is_in-held x m h.1)
    | inr a ↦ rw (away, a) (ap (λ b. b || is_in x (held m)) away ∙ is_in-held x m h.1)
  ]
]

write_positions-Same :
    (syms : List Name) (m n : NameMap PositionState)
    → SamePositions m n
    → write_positions syms m ≡ write_positions syms n
unfolding write_positions
write_positions-Same [] m n h = refl
write_positions-Same (name ∷ syms) m n h = rw (h name, write_positions-Same syms m n h) refl

same_symbols :
    (m n : NameMap PositionState)
    → Distinct (keys m)
    → Distinct (keys n)
    → SamePositions m n
    → sort (held m) ≡ sort (held n)
same_symbols m n d d' h =
    Strict-unique _ _ (sort-Strict (held m) (held-Distinct m d))
      (sort-Strict (held n) (held-Distinct n d'))
      λ x.
        is_in-sort x (held m)
        ∙ is_in-held x m d
        ∙ ap (λ p. not (is_empty p)) (h x)
        ∙ sym (is_in-held x n d')
        ∙ sym (is_in-sort x (held n))

-- Encode is canonical: two states with the same sequence number, the same sums and the same position
-- for each symbol are written as the same bytes, in whatever order their maps list the symbols and
-- whatever empty positions they hold.
pub encode-Same :
    (s t : ReplayState)
    → Distinct (keys s.positions)
    → Distinct (keys t.positions)
    → Same s t
    → encode s ≡ encode t
unfolding encode
encode-Same s t d d' h =
    rw
      (
        h.seq,
        h.cash,
        h.fees,
        h.clearing,
        same_symbols s.positions t.positions d d' h.positions,
        write_positions-Same (sort (held t.positions)) s.positions t.positions h.positions,
      )
      refl
