-- ===== src/Engine/Ledger/Balanced.antt =====
-- Each half of a fill is a balanced double entry in every unit, and the clearing legs of the two
-- halves cancel (halfFillLegs of internal/engine/outcomes.go).
use trade_execution_operatin.Common.{
  ℕ, ◌+◌, ◌≤◌, ◌≡◌, ◌≢◌, ◌∙◌, refl, sym, Bool, true, false, List, [], ◌∷◌, arith, if◌then◌else◌,
  Bool-cases, inl, inr,
}
use trade_execution_operatin.Common.Int.{ℤ, pos, ◌+ℤ◌, ◌-ℤ◌, int_laws}
use trade_execution_operatin.Common.Int64.{max_int64, wrap64, neg64, sub64}
use trade_execution_operatin.Common.Names.{name_eq, name_eq_sound}
use trade_execution_operatin.Book.{Name}
use trade_execution_operatin.Engine.Db.{Leg}
use trade_execution_operatin.Engine.Ledger.{
  postings, unit_of, unit_total, units_zero, txn_balanced, half_fill_legs,
}

-- A zero posting counts nothing.
unit_total-postings : (u : Name) (ls : List Leg) → unit_total u (postings ls) ≡ unit_total u ls
unfolding unit_total ◌+ℤ◌
unit_total-postings u [] = refl
unit_total-postings u (l ∷ ls) = ground (arith, unit_total-postings u ls)

units_zero_of :
    (ls all : List Leg) → ((u : Name) → unit_total u all ≡ pos 0) → units_zero ls all ≡ true
units_zero_of [] all h = refl
units_zero_of (l ∷ ls) all h = ground (arith, h (unit_of l), units_zero_of ls all h)

balanced_of :
    (ls : List Leg) → ((u : Name) → unit_total u ls ≡ pos 0) → txn_balanced (postings ls) ≡ true
unfolding txn_balanced
balanced_of ls h = units_zero_of (postings ls) (postings ls) (λ u. unit_total-postings u ls ∙ h u)

abbrev usd : Name
usd = 85 ∷ 83 ∷ 68 ∷ []

-- `sign * z`
abbrev signed : Bool → ℤ → ℤ
signed buying z = if buying then z else neg64 z

-- Within range the negations and the difference are exact.
neg64_exact : (n : ℕ) → n ≤ max_int64 → neg64 (pos n) ≡ pos 0 -ℤ pos n
unfolding wrap64 ◌-ℤ◌
neg64_exact n h = ground arith

neg64_twice : (n : ℕ) → n ≤ max_int64 → neg64 (neg64 (pos n)) ≡ pos n
unfolding wrap64 ◌-ℤ◌
neg64_twice n h = ground arith

sub64_exact : (n f : ℕ) → n ≤ max_int64 → f ≤ max_int64 → sub64 (pos n) (pos f) ≡ pos n -ℤ pos f
unfolding wrap64 ◌-ℤ◌
sub64_exact n f h k = ground arith

sub64_below :
    (n f : ℕ) → n + f ≤ max_int64 → sub64 (pos 0 -ℤ pos n) (pos f) ≡ pos 0 -ℤ pos n -ℤ pos f
unfolding wrap64 ◌-ℤ◌
sub64_below n f h = ground arith

-- The sums in the two units, for either side of the fill.
money_sum :
    (buying : Bool) (n f : ℕ)
    → n + f ≤ max_int64
    → sub64 (neg64 (signed buying (pos n))) (pos f) +ℤ (pos f +ℤ (signed buying (pos n) +ℤ pos 0))
      ≡ pos 0
money_sum true n f h = rw (neg64_exact n (omega arith), sub64_below n f h) (omega int_laws)
money_sum false n f h =
    rw
      (
        neg64_twice n (omega arith),
        sub64_exact n f (omega arith) (omega arith),
        neg64_exact n (omega arith),
      )
      (omega int_laws)

share_sum :
    (buying : Bool) (q : ℕ)
    → q ≤ max_int64
    → signed buying (pos q) +ℤ (neg64 (signed buying (pos q)) +ℤ pos 0) ≡ pos 0
share_sum true q h = rw (neg64_exact q h) (omega int_laws)
share_sum false q h = rw (neg64_twice q h, neg64_exact q h) (omega int_laws)

module _ (c : ℕ) (cs : Name) (n f q : ℕ) (other : c ∷ cs ≢ usd) (money : n + f ≤ max_int64)
    (shares : q ≤ max_int64) where
  half_fill_unit :
      (buying : Bool) (u : Name)
      → unit_total u (half_fill_legs (c ∷ cs) (pos q) (pos n) (pos f) buying) ≡ pos 0
  unfolding half_fill_legs unit_total
  half_fill_unit buying u = elim (Bool-cases (name_eq u usd)) [
    | inl cash ↦ elim (Bool-cases (name_eq u (c ∷ cs))) [
      | inl both ↦ absurd (other (sym (name_eq_sound u (c ∷ cs) both) ∙ name_eq_sound u usd cash))
      | inr not_share ↦ rw (cash, not_share) (money_sum buying n f money)
    ]
    | inr not_cash ↦ elim (Bool-cases (name_eq u (c ∷ cs))) [
      | inl share ↦ rw (not_cash, share) (share_sum buying q shares)
      | inr neither ↦ rw (not_cash, neither)
    ]
  ]

  -- The postings of a half-fill, of a buy or of a sale, sum to zero in every unit, so that the deferred
  -- trigger accepts the transaction: for a symbol that is not empty and not "USD", amounts that are
  -- not negative, and notional plus fee and the quantity within an int64.
  pub half_fill_legs_balanced :
      (buying : Bool)
      → txn_balanced (postings (half_fill_legs (c ∷ cs) (pos q) (pos n) (pos f) buying)) ≡ true
  half_fill_legs_balanced buying =
      balanced_of (half_fill_legs (c ∷ cs) (pos q) (pos n) (pos f) buying) (half_fill_unit buying)
