-- ===== src/Engine/Accept/Solvent.antt =====
-- The promise of riskCheck in internal/engine/submit.go: accepting orders never reserves more cash
-- than the account has.
use mathlib.Core.Path.{subst, ap₂}
use trade_execution_operatin.Common.{
  ℕ, ◌≡◌, refl, ◌∙◌, ap, Bool, true, false, ◌&&◌, ◌==◌, ==_iff, Option, none, some, [], ◌∷◌,
  if◌then◌else◌, arith, Bool-cases, inl, inr,
}
use trade_execution_operatin.Common.Int.{ℤ, pos, ◌+ℤ◌, ◌-ℤ◌, ◌≤ℤ◌, ltb_ℤ, int_laws}
use trade_execution_operatin.Common.Int64.{max_int64, wrap64, sub64}
use trade_execution_operatin.Common.Dict.{Dict, lookup, insert}
use trade_execution_operatin.Money.{Minor}
use trade_execution_operatin.Book.{Uuid, Name}
use trade_execution_operatin.Engine.Db.{
  ResKind, OrderRow, ReservationRow, BalanceRow, Db, notional_overflow, ok,
}
use trade_execution_operatin.Engine.Db.Hoare.{
  Leads, Leads-pure, Leads-gets, Leads-fail, Leads-bigint, Leads-bind, Leads-ok,
}
use trade_execution_operatin.Engine.Ledger.{balance_row, lock_account}
use trade_execution_operatin.Engine.Ledger.Frame.{lock_account-Keeps, in_tx-Leads}
use trade_execution_operatin.Engine.Ledger.Sums.{row_of}
use trade_execution_operatin.Engine.Reservation.{
  Config, Request, Reservation, size_reservation, reservation_row,
}
use trade_execution_operatin.Engine.Accept.{
  open_of, is_cash, open_cash, open_shares, held_qty, Balances, balances, Risk, risk_check,
  load_by_client_id, decide, reservation_fits, accept_new, accept_found, accept,
}

-- The open cash reservations of every account are not negative, are covered by its cash, and that is
-- an int64.
abbrev pub Solvent : Db → Type 0
Solvent db =
    (a : Uuid)
    → (pos 0 ≤ℤ open_cash a db.reservations)
      × (open_cash a db.reservations ≤ℤ (row_of a db).cash)
      × ((row_of a db).cash ≤ℤ pos max_int64)

abbrev counted : Bool → ℤ → ℤ
counted counts z = if counts then z else pos 0

counted_first :
    (counts : Bool) (z : ℤ) → (if counts then z +ℤ pos 0 else pos 0) ≡ pos 0 +ℤ counted counts z
counted_first true z = omega int_laws
counted_first false z = omega int_laws

counted_later :
    (own counts : Bool) (x y rest rest' : ℤ)
    → rest' ≡ rest +ℤ counted counts y
    → (if own then x +ℤ rest' else rest') ≡ (if own then x +ℤ rest else rest) +ℤ counted counts y
counted_later true counts x y rest rest' h =
    let assoc : x +ℤ (rest +ℤ counted counts y) ≡ x +ℤ rest +ℤ counted counts y = omega int_laws in
    ap (λ z. x +ℤ z) h ∙ assoc
counted_later false counts x y rest rest' h = h

none-ne-row : {r : ReservationRow} → some r ≡ none → ⊥
none-ne-row e = cc

-- A reservation under a new id adds what it holds open.
open_cash-insert :
    (a id : Uuid) (r : ReservationRow) (rs : Dict ReservationRow)
    → lookup id rs ≡ none
    → open_cash a (insert id r rs)
      ≡ open_cash a rs +ℤ counted ((r.account == a) && is_cash r.kind) (open_of r)
unfolding open_cash
open_cash-insert a id r [] h = counted_first ((r.account == a) && is_cash r.kind) (open_of r)
open_cash-insert a id r (e ∷ rs) h = elim (Bool-cases (id == e.0)) [
  | inl same ↦ absurd (none-ne-row (rw same at h))
  | inr other ↦
      let later : lookup id rs ≡ none = rw other at h in
      rw other (
        counted_later ((e.1.account == a) && is_cash e.1.kind) ((r.account == a) && is_cash r.kind)
          (open_of e.1) (open_of r) (open_cash a rs) (open_cash a (insert id r rs))
          (open_cash-insert a id r rs later))
]

-- What riskCheck grants: the amount fits beside what is open already.
abbrev Granted : Request → Reservation → Risk → Db → Type 0
Granted req res risk db =
    risk ≡ Risk.passes
    → is_cash res.kind ≡ true
    → open_cash req.account db.reservations +ℤ res.amount ≤ℤ (row_of req.account db).cash

-- Buying power is exact where the account is solvent.
enough :
    (open_now cash amount : ℤ)
    → pos 0 ≤ℤ open_now
    → open_now ≤ℤ cash
    → cash ≤ℤ pos max_int64
    → ltb_ℤ (sub64 cash open_now) amount ≡ false
    → open_now +ℤ amount ≤ℤ cash
unfolding wrap64 ◌+ℤ◌ ◌-ℤ◌
enough open_now cash amount h k m t = ground arith

abbrev Ready : Uuid → Db → Type 0
Ready id db = Solvent db × (lookup id db.reservations ≡ none)

balances-Leads :
    (id account : Uuid)
    → Leads (Ready id) (balances account) (λ b db.
      Ready id db
      × (b.buying_power ≡ sub64 (row_of account db).cash (open_cash account db.reservations)))
unfolding balances
balances-Leads id account =
    Leads-bind {Q = λ (row : BalanceRow) db. Ready id db × (row ≡ row_of account db)}
      (Leads-gets (λ db. balance_row (lookup account db.balances)) λ db p. (p, refl))
      λ (row : BalanceRow).
        Leads-bind
          {Q = λ z db.
            Ready id db × (row ≡ row_of account db) × (z ≡ open_cash account db.reservations)}
          (Leads-gets (λ db. open_cash account db.reservations) λ db (p, er). (p, er, refl))
          λ z. Leads-bind (Leads-bigint z) λ reserved.
            Leads-pure
              (record {
                cash = row.cash;
                reserved_cash = reserved;
                buying_power = sub64 row.cash reserved;
                fees = row.fees;
              })
              λ db ((p, er, ez), eb). (p, ap₂ sub64 (ap (λ (x : BalanceRow). x.cash) er) (eb ∙ ez))

passed_test :
    (t : Bool)
    → (if t then Risk.insufficient_buying_power else Risk.passes) ≡ Risk.passes
    → t ≡ false
passed_test true h = cc
passed_test false h = refl

grants_cash :
    (id : Uuid) (req : Request) (res : Reservation) (b : Balances) (db : Db)
    → Ready id db
    → b.buying_power ≡ sub64 (row_of req.account db).cash (open_cash req.account db.reservations)
    → Granted req res
        (if ltb_ℤ b.buying_power res.amount then Risk.insufficient_buying_power else Risk.passes)
        db
grants_cash id req res b db (h, new) eb passed cash =
    let (low, high, top) = h req.account in
    enough (open_cash req.account db.reservations) (row_of req.account db).cash res.amount low high
      top
      (subst (λ z. ltb_ℤ z res.amount ≡ false) eb
        (passed_test (ltb_ℤ b.buying_power res.amount) passed))

no_cash : {A : Type 0} (k : ResKind) → k ≡ ResKind.shares → is_cash k ≡ true → A
no_cash ResKind.cash e c = cc
no_cash ResKind.shares e c = cc

risk_check-Leads :
    (id : Uuid) (req : Request) (res : Reservation) (k : ResKind)
    → res.kind ≡ k
    → Leads (Ready id) (risk_check req res) (λ risk db. Ready id db × Granted req res risk db)
unfolding risk_check
risk_check-Leads id req res ResKind.cash e =
    rw (risk_check, e)
      (Leads-bind (balances-Leads id req.account) λ (b : Balances). record {
        run = λ db (p, eb).
            (p, λ passed cash. grants_cash id req res b db p eb passed (ap is_cash e));
      })
risk_check-Leads id req res ResKind.shares e =
    rw (risk_check, e)
      (Leads-bind (Leads-gets (λ db. held_qty req.account req.symbol db.positions) λ db p. p)
        λ held.
          Leads-bind
            (Leads-gets (λ db. open_shares req.account req.symbol db.reservations) λ db p. p)
            λ sum. Leads-bind (Leads-bigint sum) λ reserved.
              Leads-pure
                (if ltb_ℤ (sub64 held reserved) res.amount
                  then Risk.insufficient_shares
                  else Risk.passes)
                λ db (p, r). (p, λ passed cash. no_cash res.kind e (ap is_cash e ∙ cash)))

funds :
    (counts : Bool) (open_now cash amount : ℤ)
    → pos 0 ≤ℤ open_now
    → open_now ≤ℤ cash
    → pos 0 ≤ℤ amount
    → (counts ≡ true → open_now +ℤ amount ≤ℤ cash)
    → (pos 0 ≤ℤ open_now +ℤ counted counts (amount -ℤ pos 0 -ℤ pos 0))
      × (open_now +ℤ counted counts (amount -ℤ pos 0 -ℤ pos 0) ≤ℤ cash)
unfolding ◌+ℤ◌ ◌-ℤ◌
funds true open_now cash amount h k n g = let room = g refl in (ground arith, ground arith)
funds false open_now cash amount h k n g = (ground arith, ground arith)

and_true : (x y : Bool) → x && y ≡ true → (x ≡ true) × (y ≡ true)
and_true true y h = (refl, h)
and_true false y h = cc

reserves :
    (id : Uuid) (req : Request) (res : Reservation) (db : Db)
    → pos 0 ≤ℤ res.amount
    → Ready id db
    → Granted req res Risk.passes db
    → Solvent
        (record db { reservations = insert id (reservation_row req.account res) db.reservations })
reserves id req res db n (h, new) g a =
    let (low, high, top) = h a in
    let counts = (req.account == a) && is_cash res.kind in
    let room : counts ≡ true → open_cash a db.reservations +ℤ res.amount ≤ℤ (row_of a db).cash =
      λ t.
        let (here, cash) = and_true (req.account == a) (is_cash res.kind) t in
        subst (λ x. open_cash x db.reservations +ℤ res.amount ≤ℤ (row_of x db).cash)
          ((==_iff req.account a).0 here) (g refl cash) in
    let (low', high') =
      funds counts (open_cash a db.reservations) (row_of a db).cash res.amount low high n room in
    let sum = open_cash-insert a id (reservation_row req.account res) db.reservations new in
    rw sum (low', high', top)

-- The CHECK of the table keeps a negative amount out.
fits_nonneg :
    (k : ResKind) (symbol : Name) (amount : ℤ)
    → reservation_fits k symbol amount ≡ true
    → pos 0 ≤ℤ amount
fits_nonneg ResKind.cash symbol amount h = ground arith
fits_nonneg ResKind.shares [] amount h = cc
fits_nonneg ResKind.shares (c ∷ cs) amount h = ground arith

module _ (id : Uuid) (req : Request) (ref : Minor) where
  decide-Solvent :
      (res : Reservation) (risk : Risk)
      → Leads
          (λ db. Ready id db × Granted req res risk db)
          (decide id req ref res risk)
          (λ _. Solvent)
  unfolding decide
  decide-Solvent res Risk.passes = record {
    run = λ db (p, g). elim (Bool-cases (reservation_fits res.kind res.symbol res.amount)) [
      | inl t ↦
          rw (decide, t) (reserves id req res db (fits_nonneg res.kind res.symbol res.amount t) p g)
      | inr f ↦ rw (decide, f) tt
    ];
  }
  decide-Solvent res Risk.insufficient_buying_power = record { run = λ db ((h, new), g). h }
  decide-Solvent res Risk.insufficient_shares = record { run = λ db ((h, new), g). h }

  module _ (cfg : Config) where
    accept_new-Solvent :
        (sized : Option Reservation)
        → Leads (Ready id) (accept_new cfg id req ref sized) (λ _. Solvent)
    unfolding accept_new
    accept_new-Solvent none = Leads-fail notional_overflow
    accept_new-Solvent (some res) =
        Leads-bind (risk_check-Leads id req res res.kind refl) λ risk. decide-Solvent res risk

    accept_found-Solvent :
        (found : Option OrderRow)
        → Leads (Ready id) (accept_found cfg id req ref found) (λ _. Solvent)
    accept_found-Solvent (some v) = Leads-pure v λ db (h, new). h
    accept_found-Solvent none = accept_new-Solvent (size_reservation cfg req ref)

    -- Accepting an order, whether it is new, rejected or a repeat, keeps every account solvent: its
    -- open cash reservations are not negative and stay within its cash, which is an int64. The order
    -- id is new among the reservations.
    pub accept-Solvent :
        (lease : Option ℕ) (db db' : Db) (v : OrderRow)
        → accept cfg lease id req ref db ≡ ok (v, db')
        → lookup id db.reservations ≡ none
        → Solvent db
        → Solvent db'
    unfolding accept
    accept-Solvent lease db db' v e new h =
        let locked : Leads (Ready id) (lock_account req.account) (λ _. Ready id) =
          lock_account-Keeps req.account in
        let done =
          Leads-ok
            (in_tx-Leads lease (
              Leads-bind locked λ _.
                Leads-bind
                  (Leads-gets {P = Ready id} {Q = λ _. Ready id}
                    (λ db. load_by_client_id req.account req.client_order_id db.orders) λ db p. p)
                  λ found. accept_found-Solvent found))
            db db' v e (h, new) in
        done
