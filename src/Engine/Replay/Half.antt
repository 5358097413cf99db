-- ===== src/Engine/Replay/Half.antt =====
-- The replay of one fill half: the legs of halfFillLegs of internal/engine/outcomes.go, through the
-- postings that writeTxn keeps and the loop of internal/engine/replay.go.
use mathlib.Core.Path.{subst}
use trade_execution_operatin.Common.{
  ℕ, ◌≡◌, refl, sym, ap, ◌∙◌, Bool, true, false, none, some, List, [], ◌∷◌, ◌==◌, if◌then◌else◌,
  Bool-cases, inl, inr, arith,
}
use trade_execution_operatin.Common.Int.{ℤ, pos, eqb_ℤ, ◌+ℤ◌, int_laws}
use trade_execution_operatin.Common.Int64.{
  IsInt64, add64, sub64, neg64, wrap64, wrap64_id, wrap64-IsInt64,
}
use trade_execution_operatin.Common.NameMap.{NameMap, put, find}
use trade_execution_operatin.Common.Names.{name_eq}
use trade_execution_operatin.Money.{Minor, Qty}
use trade_execution_operatin.Book.{Name}
use trade_execution_operatin.Engine.Position.{apply}
use trade_execution_operatin.Engine.Db.{LedgerKind, Leg}
use trade_execution_operatin.Engine.Ledger.{postings, half_fill_legs}
use trade_execution_operatin.Engine.Replay.{
  ReplayState, TxnLegs, ReplayRow, position_of, apply_deltas, flush, add_leg, new_legs, replay_rows,
  leg_rows,
}

abbrev row_at : ℕ → Leg → ReplayRow
row_at n l = record { seq = n; kind = l.kind; symbol = l.symbol; amount = l.amount }

-- The rows of one transaction, folded.
gather : ℕ → List Leg → TxnLegs → TxnLegs
gather n [] t = t
gather n (l ∷ ls) t = gather n ls (add_leg (row_at n l) t)

-- Not to post a zero leg.
abbrev post : ℕ → Leg → TxnLegs → TxnLegs
post n l t = if eqb_ℤ l.amount (pos 0) then t else add_leg (row_at n l) t

gather-postings :
    (n : ℕ) (l : Leg) (ls : List Leg) (t : TxnLegs)
    → gather n (postings (l ∷ ls)) t ≡ gather n (postings ls) (post n l t)
unfolding gather
gather-postings n l ls t = elim (Bool-cases (eqb_ℤ l.amount (pos 0))) [
  | inl e ↦ rw e refl
  | inr e ↦ rw e refl
]

seq_kept : (r : ReplayRow) (t : TxnLegs) → (add_leg r t).seq ≡ t.seq
unfolding add_leg
seq_kept r t = ground arith

current_gathers :
    (n : ℕ) (ls : List Leg) (t : TxnLegs) (s : ReplayState)
    → t.seq ≡ n
    → replay_rows (leg_rows n ls) (some t) s ≡ flush (some (gather n ls t)) s
unfolding replay_rows leg_rows gather
current_gathers n [] t s e = refl
current_gathers n (l ∷ ls) t s e =
    let same : (t.seq == n) ≡ true = ground arith in
    rw same (current_gathers n ls (add_leg (row_at n l) t) s (seq_kept (row_at n l) t ∙ e))

-- What has been gathered for a transaction of at least one posting.
first_gathers :
    (n : ℕ) (l : Leg) (ls : List Leg) (s : ReplayState)
    → replay_rows (leg_rows n (l ∷ ls)) none s ≡ flush (some (gather n (l ∷ ls) (new_legs n))) s
unfolding replay_rows leg_rows gather
first_gathers n l ls s =
    current_gathers n ls (add_leg (row_at n l) (new_legs n)) s (seq_kept (row_at n l) (new_legs n))

abbrev Carries : Minor → NameMap Qty → TxnLegs → Type 0
Carries cash ps t = (t.cash ≡ cash) × (t.positions ≡ ps)

add64_zero_left : (z : ℤ) → IsInt64 z → add64 (pos 0) z ≡ z
add64_zero_left z h = ap wrap64 (let e : pos 0 +ℤ z ≡ z = omega int_laws in e) ∙ wrap64_id z h

is_zero : (z : ℤ) → eqb_ℤ z (pos 0) ≡ true → z ≡ pos 0
is_zero z h = ground arith

module _ (n : ℕ) (z : ℤ) (t : TxnLegs) where
  post_cash :
      (ps : NameMap Qty)
      → IsInt64 z
      → Carries (pos 0) ps t
      → Carries z ps (post n (record { kind = LedgerKind.cash; symbol = []; amount = z }) t)
  unfolding add_leg
  post_cash ps h (c, p) = elim (Bool-cases (eqb_ℤ z (pos 0))) [
    | inl e ↦ rw e (c ∙ sym (is_zero z e), p)
    | inr e ↦ rw e (ap (λ x. add64 x z) c ∙ add64_zero_left z h, p)
  ]

  post_fees :
      (cash : Minor) (ps : NameMap Qty)
      → Carries cash ps t
      → Carries cash ps (post n (record { kind = LedgerKind.fees; symbol = []; amount = z }) t)
  unfolding add_leg
  post_fees cash ps h = elim (Bool-cases (eqb_ℤ z (pos 0))) [ inl e ↦ rw e h | inr e ↦ rw e h ]

  post_clearing :
      (symbol : Name) (cash : Minor) (ps : NameMap Qty)
      → Carries cash ps t
      → Carries cash ps
          (post n (record { kind = LedgerKind.clearing; symbol = symbol; amount = z }) t)
  unfolding add_leg
  post_clearing symbol cash ps h = elim (Bool-cases (eqb_ℤ z (pos 0))) [
    | inl e ↦ rw e h
    | inr e ↦ elim (Bool-cases (name_eq symbol [])) [ inl m ↦ rw (e, m) h | inr m ↦ rw (e, m) h ]
  ]

  post_position :
      (symbol : Name) (cash : Minor)
      → IsInt64 z
      → eqb_ℤ z (pos 0) ≡ false
      → Carries cash [] t
      → Carries cash
          ((symbol, z) ∷ [])
          (post n (record { kind = LedgerKind.position; symbol = symbol; amount = z }) t)
  unfolding add_leg put find
  post_position symbol cash h e (c, p) =
      rw e (c, rw p (ap (λ q. (symbol, q) ∷ []) (add64_zero_left z h)))

nil-ne-cons : {A B : Type 0} {x : A} {xs : List A} → [] ≡ x ∷ xs → B
nil-ne-cons e = cc

gathered :
    (n : ℕ) (ls : List Leg) (s : ReplayState) (cash : Minor) (d : Name × Qty)
    → Carries cash (d ∷ []) (gather n ls (new_legs n))
    → (replay_rows (leg_rows n ls) none s).positions
      ≡ put d.0 (apply (position_of d.0 s.positions) d.1 cash) s.positions
unfolding apply_deltas flush gather
gathered n [] s cash d h = nil-ne-cons h.1
gathered n (l ∷ ls) s cash d h =
    ap (λ (x : ReplayState). x.positions) (first_gathers n l ls s)
    ∙ flushed (gather n (l ∷ ls) (new_legs n)) h
  where
    flushed :
        (t : TxnLegs)
        → Carries cash (d ∷ []) t
        → (flush (some t) s).positions
          ≡ put d.0 (apply (position_of d.0 s.positions) d.1 cash) s.positions
    flushed t (c, p) = rw (p, c) refl

-- The amounts of the cash and the position leg.
abbrev pub cash_leg : Minor → Minor → Bool → ℤ
cash_leg notional fee buying = sub64 (neg64 (if buying then notional else neg64 notional)) fee

abbrev pub shares_leg : Qty → Bool → ℤ
shares_leg qty buying = if buying then qty else neg64 qty

module _ (n : ℕ) (symbol : Name) (c f m q r : ℤ) where
  five-Carries :
      IsInt64 c
      → IsInt64 q
      → eqb_ℤ q (pos 0) ≡ false
      → Carries c ((symbol, q) ∷ []) (
          gather n
            (postings (
              record { kind = LedgerKind.cash; symbol = []; amount = c }
              ∷ record { kind = LedgerKind.fees; symbol = []; amount = f }
              ∷ record { kind = LedgerKind.clearing; symbol = []; amount = m }
              ∷ record { kind = LedgerKind.position; symbol = symbol; amount = q }
              ∷ record { kind = LedgerKind.clearing; symbol = symbol; amount = r }
              ∷ []))
            (new_legs n))
  unfolding gather
  five-Carries hc hq moved =
      let l1 : Leg = record { kind = LedgerKind.cash; symbol = []; amount = c } in
      let l2 : Leg = record { kind = LedgerKind.fees; symbol = []; amount = f } in
      let l3 : Leg = record { kind = LedgerKind.clearing; symbol = []; amount = m } in
      let l4 : Leg = record { kind = LedgerKind.position; symbol = symbol; amount = q } in
      let l5 : Leg = record { kind = LedgerKind.clearing; symbol = symbol; amount = r } in
      let t1 = post n l1 (new_legs n) in
      let t2 = post n l2 t1 in
      let t3 = post n l3 t2 in
      let t4 = post n l4 t3 in
      subst (Carries c ((symbol, q) ∷ []))
        (sym (
          gather-postings n l1 (l2 ∷ l3 ∷ l4 ∷ l5 ∷ []) (new_legs n)
          ∙ gather-postings n l2 (l3 ∷ l4 ∷ l5 ∷ []) t1
          ∙ gather-postings n l3 (l4 ∷ l5 ∷ []) t2
          ∙ gather-postings n l4 (l5 ∷ []) t3
          ∙ gather-postings n l5 [] t4))
        (post_clearing n r t4 symbol c ((symbol, q) ∷ []) (
          post_position n q t3 symbol c hq moved (
            post_clearing n m t2 [] c []
              (post_fees n f t1 c [] (post_cash n c (new_legs n) [] hc (refl, refl))))))

-- The positions after the postings of a fill half: those before, with the one of its symbol moved
-- by `apply`.
pub half-positions :
    (n : ℕ) (symbol : Name) (qty : Qty) (notional fee : Minor) (buying : Bool) (s : ReplayState)
    → IsInt64 (shares_leg qty buying)
    → eqb_ℤ (shares_leg qty buying) (pos 0) ≡ false
    → (replay_rows
        (leg_rows n (postings (half_fill_legs symbol qty notional fee buying)))
        none
        s).positions
      ≡ put symbol
          (apply
            (position_of symbol s.positions)
            (shares_leg qty buying)
            (cash_leg notional fee buying))
          s.positions
unfolding half_fill_legs
half-positions n symbol qty notional fee buying s fits moved =
    gathered n (postings (half_fill_legs symbol qty notional fee buying)) s
      (cash_leg notional fee buying) (symbol, shares_leg qty buying)
      (five-Carries n symbol (cash_leg notional fee buying) fee
        (if buying then notional else neg64 notional) (shares_leg qty buying)
        (neg64 (shares_leg qty buying)) (wrap64-IsInt64 _) fits moved)
