-- ===== src/Engine/Replay/Projected.antt =====
-- ProjectedState of internal/engine/replay.go: the state that the write path keeps.
use trade_execution_operatin.Common.{
  ℕ, ◌≡◌, refl, sym, ap, ◌∙◌, Bool, true, false, ◌&&◌, Option, none, some, List, [], ◌∷◌, ltb, ◌==◌,
  if◌then◌else◌, Bool-cases, inl, inr, ==_iff, arith,
}
use trade_execution_operatin.Common.Int.{ℤ, pos, ◌+ℤ◌}
use trade_execution_operatin.Common.Dict.{lookup}
use trade_execution_operatin.Common.NameMap.{NameMap, put, find}
use trade_execution_operatin.Common.Names.{name_eq, name_eq_sound, name_eq_refl, false-ne-true}
use trade_execution_operatin.Money.Band.{fits}
use trade_execution_operatin.Book.{Uuid, Name}
use trade_execution_operatin.Engine.Position.{PositionState}
use trade_execution_operatin.Engine.Db.{LedgerKind, Leg, Txn, PositionRow, Db}
use trade_execution_operatin.Engine.Ledger.{balance_row}
use trade_execution_operatin.Engine.Replay.{ReplayState, position_of, no_position}
use trade_execution_operatin.Engine.Replay.Same.{position_of-put}
use trade_execution_operatin.Engine.Outcomes.{update_position}

-- The postings to the account's clearing account for money.
abbrev pub clearing_of : Leg → ℤ
clearing_of l = elim l.kind [
  | LedgerKind.clearing ↦ if name_eq l.symbol [] then l.amount else pos 0
  | _ ↦ pos 0
]

unfoldable pub clearing_legs : List Leg → ℤ
clearing_legs [] = pos 0
clearing_legs (l ∷ ls) = clearing_of l +ℤ clearing_legs ls

unfoldable pub clearing_total : Uuid → List Txn → ℤ
clearing_total a [] = pos 0
clearing_total a (t ∷ ts) =
    let rest = clearing_total a ts in if a == t.account then rest +ℤ clearing_legs t.legs else rest

-- coalesce(max(account_seq), 0)
unfoldable pub max_seq : Uuid → List Txn → ℕ
max_seq a [] = 0
max_seq a (t ∷ ts) =
    let rest = max_seq a ts in if (a == t.account) && ltb rest t.seq then t.seq else rest

-- The loop over the rows of positions. The query has no order: the last of the list is read first.
unfoldable pub projected_positions : Uuid → List PositionRow → NameMap PositionState
projected_positions a [] = []
projected_positions a (p ∷ ps) =
    let rest = projected_positions a ps in
    if p.account == a then put p.symbol p.state rest else rest

-- ProjectedState; `none` is a sum that the scan into an int64 refuses.
unfoldable pub projected_state : Db → Uuid → Option ReplayState
projected_state db a =
    let row = balance_row (lookup a db.balances) in
    let clearing = clearing_total a db.txns in
    if fits clearing
    then some (record {
      seq = pos (max_seq a db.txns);
      cash = row.cash;
      fees = row.fees;
      clearing = clearing;
      positions = projected_positions a db.positions;
    })
    else none

both : (a b : Bool) → (a && b) ≡ true → (a ≡ true) × (b ≡ true)
both a b h = ground arith

-- What writing one position row does to the map of an account.
module _ (account : Uuid) (symbol : Name) (f : PositionState → PositionState) (a : Uuid)
    (x : Name) where
  abbrev is_target : Bool
  is_target = (account == a) && name_eq x symbol

  abbrev at : List PositionRow → PositionState
  at ps = position_of x (projected_positions a ps)

  at_cons :
      (p : PositionRow) (ps : List PositionRow)
      → at (p ∷ ps) ≡ (if (p.account == a) && name_eq x p.symbol then p.state else at ps)
  unfolding projected_positions
  at_cons p ps = elim (Bool-cases (p.account == a)) [
    | inl mine ↦ rw mine (position_of-put x p.symbol p.state (projected_positions a ps))
    | inr other ↦ rw other refl
  ]

  at_new :
      (p : PositionState)
      → at (record { account = account; symbol = symbol; state = p } ∷ [])
        ≡ (if is_target then p else no_position)
  unfolding projected_positions find
  at_new p = at_cons (record { account = account; symbol = symbol; state = p }) []

  target_row :
      (p : PositionRow)
      → ((p.account == account) && name_eq p.symbol symbol) ≡ true
      → ((p.account == a) && name_eq x p.symbol) ≡ is_target
  target_row p e =
      let (ea, es) = both (p.account == account) (name_eq p.symbol symbol) e in
      ap (λ c. (c == a) && name_eq x p.symbol) ((==_iff p.account account).0 ea)
      ∙ ap (λ s. (account == a) && name_eq x s) (name_eq_sound p.symbol symbol es)

  other_row :
      (p : PositionRow)
      → ((p.account == account) && name_eq p.symbol symbol) ≡ false
      → ((p.account == a) && name_eq x p.symbol) ≡ true
      → is_target ≡ false
  other_row p e h = elim (Bool-cases is_target) [
    | inl t ↦
        let (pa, ps) = both (p.account == a) (name_eq x p.symbol) h in
        let (ta, ts) = both (account == a) (name_eq x symbol) t in
        let same_account = (==_iff p.account a).0 pa ∙ sym ((==_iff account a).0 ta) in
        let same_symbol = sym (name_eq_sound x p.symbol ps) ∙ name_eq_sound x symbol ts in
        absurd (
          false-ne-true (
            sym e
            ∙ ap (λ c. (c == account) && name_eq p.symbol symbol) same_account
            ∙ ap (λ s. (account == account) && name_eq s symbol) same_symbol
            ∙ ap (λ b. (account == account) && b) (name_eq_refl symbol)
            ∙ ground arith))
    | inr f ↦ f
  ]

  at_nil : at [] ≡ no_position
  unfolding projected_positions find
  at_nil = refl

  pick_here :
      (t : Bool) (s q o : PositionState)
      → o ≡ (if t then s else q)
      → (if t then f s else q) ≡ (if t then f o else o)
  pick_here true s q o h = ap f (sym h)
  pick_here false s q o h = sym h

  pick_away :
      (m t : Bool) (s u q o : PositionState)
      → (m ≡ true → t ≡ false)
      → u ≡ (if t then f q else q)
      → o ≡ (if m then s else q)
      → (if m then s else u) ≡ (if t then f o else o)
  pick_away true t s u q o n e h = rw (n refl) (sym h)
  pick_away false t s u q o n e h = e ∙ ap (λ z. if t then f z else z) (sym h)

  pub projected-update_position :
      (ps : List PositionRow)
      → at (update_position account symbol f ps) ≡ (if is_target then f (at ps) else at ps)
  unfolding update_position
  projected-update_position [] =
      at_new (f no_position) ∙ ap (λ o. if is_target then f o else o) (sym at_nil)
  projected-update_position (p ∷ ps) =
      elim (Bool-cases ((p.account == account) && name_eq p.symbol symbol)) [
        | inl here ↦ rw here (
            at_cons (record p { state = f p.state }) ps
            ∙ ap (λ b. if b then f p.state else at ps) (target_row p here)
            ∙ pick_here is_target p.state (at ps) (at (p ∷ ps))
                (at_cons p ps ∙ ap (λ b. if b then p.state else at ps) (target_row p here)))
        | inr away ↦ rw away (
            at_cons p (update_position account symbol f ps)
            ∙ pick_away ((p.account == a) && name_eq x p.symbol) is_target p.state
                (at (update_position account symbol f ps)) (at ps) (at (p ∷ ps)) (other_row p away)
                (projected-update_position ps) (at_cons p ps))
      ]
