-- ===== src/Common/Names.antt =====
-- Go strings that are only compared: byte strings, with their equality test.
use trade_execution_operatin.Common.{
  ℕ, ◌≡◌, refl, sym, Bool, true, false, ◌&&◌, ◌||◌, List, [], ◌∷◌, arith, ltb, ◌==◌,
}

pub false-ne-true : false ≡ true → ⊥
false-ne-true e = cc

unfoldable pub name_eq : List ℕ → List ℕ → Bool
name_eq [] [] = true
name_eq [] (b ∷ bs) = false
name_eq (a ∷ x) [] = false
name_eq (a ∷ x) (b ∷ bs) = (a == b) && name_eq x bs

pub name_eq_sound : (a b : List ℕ) → name_eq a b ≡ true → a ≡ b
unfolding name_eq
name_eq_sound [] [] h = refl
name_eq_sound [] (b ∷ bs) h = cc
name_eq_sound (a ∷ x) [] h = cc
name_eq_sound (a ∷ x) (b ∷ bs) h = ground (arith, name_eq_sound x bs)

pub name_eq_refl : (a : List ℕ) → name_eq a a ≡ true
unfolding name_eq
name_eq_refl [] = refl
name_eq_refl (a ∷ x) = ground (arith, name_eq_refl x)

-- a < b on strings: bytewise.
unfoldable pub name_ltb : List ℕ → List ℕ → Bool
name_ltb [] [] = false
name_ltb [] (b ∷ bs) = true
name_ltb (a ∷ x) [] = false
name_ltb (a ∷ x) (b ∷ bs) = ltb a b || ((a == b) && name_ltb x bs)

pub name_ltb_irrefl : (a : List ℕ) → name_ltb a a ≡ false
unfolding name_ltb
name_ltb_irrefl [] = refl
name_ltb_irrefl (a ∷ x) = ground (arith, name_ltb_irrefl x)

pub name_ltb_trans :
    (a b c : List ℕ) → name_ltb a b ≡ true → name_ltb b c ≡ true → name_ltb a c ≡ true
unfolding name_ltb
name_ltb_trans [] [] c h k = absurd (false-ne-true h)
name_ltb_trans [] (b ∷ bs) [] h k = absurd (false-ne-true k)
name_ltb_trans [] (b ∷ bs) (c ∷ cs) h k = refl
name_ltb_trans (a ∷ x) [] c h k = absurd (false-ne-true h)
name_ltb_trans (a ∷ x) (b ∷ bs) [] h k = absurd (false-ne-true k)
name_ltb_trans (a ∷ x) (b ∷ bs) (c ∷ cs) h k = ground (arith, name_ltb_trans x bs cs)

-- Of two strings that differ one is less.
pub name_ltb_connex :
    (a b : List ℕ) → name_ltb a b ≡ false → name_eq a b ≡ false → name_ltb b a ≡ true
unfolding name_ltb name_eq
name_ltb_connex [] [] h k = absurd (false-ne-true (sym k))
name_ltb_connex [] (b ∷ bs) h k = absurd (false-ne-true (sym h))
name_ltb_connex (a ∷ x) [] h k = refl
name_ltb_connex (a ∷ x) (b ∷ bs) h k = ground (arith, name_ltb_connex x bs)
