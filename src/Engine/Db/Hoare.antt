-- ===== src/Engine/Db/Hoare.antt =====
-- Reasoning on transactions of internal/engine: what holds after one that succeeds.
use mathlib.Core.Path.{subst}
use trade_execution_operatin.Common.{
  ◌≡◌, refl, Bool, true, false, Option, none, some, if◌then◌else◌,
}
use trade_execution_operatin.Common.Int.{ℤ}
use trade_execution_operatin.Money.Band.{fits}
use trade_execution_operatin.Engine.Db.{
  Db, Error, bigint_overflow, Result, ok, err, Tx, ⊤, pure, fail, or_fail, gets, modify, bigint,
  bind_result, ◌>>=◌,
}

-- Q of a result that is not an error.
abbrev pub Ok : {A : Type 0} → (A → Db → Type 0) → Result (A × Db) → Type 0
Ok Q (ok (a, db)) = Q a db
Ok Q (err e) = ⊤

-- From every state with P, a transaction that succeeds ends in a result and a state with Q.
pub record Leads {A : Type 0} (P : Db → Type 0) (m : Tx A) (Q : A → Db → Type 0) : Type 0 where
  pub run : (db : Db) → P db → Ok Q (m db)

abbrev pub Keeps : {A : Type 0} → (Db → Type 0) → Tx A → Type 0
Keeps P m = Leads P m (λ a. P)

-- For a run that is known to succeed.
pub Leads-ok :
    {A : Type 0} {P : Db → Type 0} {m : Tx A} {Q : A → Db → Type 0}
    → Leads P m Q
    → (db db' : Db) (a : A) → m db ≡ ok (a, db')
    → P db
    → Q a db'
Leads-ok {Q} h db db' a e p = subst (Ok Q) e (h.run db p)

pub Leads-pure :
    {A : Type 0} {P : Db → Type 0} {Q : A → Db → Type 0} (a : A)
    → ((db : Db) → P db → Q a db)
    → Leads P (pure a) Q
Leads-pure a f = record { run = f }

pub Leads-gets :
    {A : Type 0} {P : Db → Type 0} {Q : A → Db → Type 0} (f : Db → A)
    → ((db : Db) → P db → Q (f db) db)
    → Leads P (gets f) Q
Leads-gets f h = record { run = h }

pub Leads-modify :
    {P : Db → Type 0} {Q : ⊤ → Db → Type 0} (f : Db → Db)
    → ((db : Db) → P db → Q tt (f db))
    → Leads P (modify f) Q
Leads-modify f h = record { run = h }

pub Leads-or_fail :
    {A : Type 0} {P : Db → Type 0} {Q : A → Db → Type 0} (o : Option A) (x : Error)
    → ((db : Db) (a : A) → o ≡ some a → P db → Q a db)
    → Leads P (or_fail o x) Q
Leads-or_fail none x f = record { run = λ db p. tt }
Leads-or_fail (some a) x f = record { run = λ db p. f db a refl p }

pub Leads-fail :
    {A : Type 0} {P : Db → Type 0} {Q : A → Db → Type 0} (x : Error) → Leads P (fail {A = A} x) Q
Leads-fail x = record { run = λ db p. tt }

pub Leads-if :
    {A : Type 0} {P : Db → Type 0} {Q : A → Db → Type 0} (b : Bool) {m n : Tx A}
    → Leads P m Q
    → Leads P n Q
    → Leads P (if b then m else n) Q
Leads-if true hm hn = hm
Leads-if false hm hn = hn

pub Keeps-bigint : {P : Db → Type 0} (z : ℤ) → Keeps P (bigint z)
Keeps-bigint z = Leads-if (fits z) (Leads-pure z (λ db p. p)) (Leads-fail bigint_overflow)

pub Leads-bigint : {P : Db → Type 0} (z : ℤ) → Leads P (bigint z) (λ a db. P db × (a ≡ z))
Leads-bigint z = Leads-if (fits z) (Leads-pure z (λ db p. (p, refl))) (Leads-fail bigint_overflow)

Ok-bind :
    {A B : Type 0} {Q : A → Db → Type 0} {R : B → Db → Type 0} (r : Result (A × Db)) (k : A → Tx B)
    → Ok Q r
    → ((a : A) → Leads (Q a) (k a) R)
    → Ok R (bind_result r k)
Ok-bind (ok (a, db)) k h hk = (hk a).run db h
Ok-bind (err e) k h hk = tt

pub Leads-bind :
    {A B : Type 0} {P : Db → Type 0} {Q : A → Db → Type 0} {R : B → Db → Type 0} {m : Tx A}
    {k : A → Tx B}
    → Leads P m Q
    → ((a : A) → Leads (Q a) (k a) R)
    → Leads P (m >>= k) R
Leads-bind {m} {k} hm hk = record { run = λ db p. Ok-bind (m db) k (hm.run db p) hk }
