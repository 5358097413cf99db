-- ===== src/Engine/Replay/Appended.antt =====
-- The replay of internal/engine/replay.go over a ledger that one transaction was added to.
use mathlib.Core.List.{append-nil}
use trade_execution_operatin.Common.{
  ℕ, ◌-◌, ◌<◌, ◌≡◌, refl, sym, ap, ◌∙◌, true, false, ◌&&◌, ◌||◌, none, List, [], ◌∷◌, ◌++◌, ltb,
  ◌==◌, ==_iff, Bool-cases, inl, inr, arith, All, All-map,
}
use trade_execution_operatin.Common.Int.{pos, ltb_ℤ, leb_ℤ, eqb_ℤ}
use trade_execution_operatin.Book.{Uuid}
use trade_execution_operatin.Engine.Db.{Txn, Db}
use trade_execution_operatin.Engine.Replay.{
  ReplayState, new_replay_state, replay_rows, by_seq, txns_between, leg_rows, join_rows,
  replay_account_range, replay_account,
}
use trade_execution_operatin.Engine.Replay.Split.{
  All-by_seq, join_rows-append, leg_rows-Above, join_rows-AtMost, rows_split,
}

-- The transactions of the account have sequence numbers below `n`.
abbrev pub Below : Uuid → ℕ → List Txn → Type 0
Below a n ts = All (λ (t : Txn). t.account ≡ a → t.seq < n) ts

module _ (a : Uuid) (n : ℕ) where
  between-Below :
      (ts : List Txn)
      → Below a n ts
      → All (λ (t : Txn). t.seq < n) (txns_between a (pos 0) (pos 0) ts)
  unfolding txns_between
  between-Below [] h = tt
  between-Below (t ∷ ts) h =
      elim (Bool-cases (
        ((a == t.account) && ltb_ℤ (pos 0) (pos t.seq))
        && (eqb_ℤ (pos 0) (pos 0) || leb_ℤ (pos t.seq) (pos 0)))) [
          | inl e ↦ rw e (
              All-by_seq (λ (t : Txn). t.seq < n) t _
                (h.0 (sym ((==_iff a t.account).0 (ground arith)))) (between-Below ts h.1))
          | inr e ↦ rw e (between-Below ts h.1)
        ]

by_seq_last :
    (t : Txn) (us : List Txn) → All (λ (u : Txn). u.seq < t.seq) us → by_seq t us ≡ us ++ t ∷ []
unfolding by_seq
by_seq_last t [] h = refl
by_seq_last t (u ∷ us) h =
    let e : ltb t.seq u.seq ≡ false = let b = h.0 in ground arith in
    rw e (ap (λ l. u ∷ l) (by_seq_last t us h.1))

module _ (t : Txn) (ts : List Txn) (positive : 0 < t.seq) (latest : Below t.account t.seq ts) where
  between_appended :
      txns_between t.account (pos 0) (pos 0) (t ∷ ts)
      ≡ txns_between t.account (pos 0) (pos 0) ts ++ t ∷ []
  unfolding txns_between
  between_appended =
      let mine : (t.account == t.account) ≡ true = ground arith in
      let after : ltb_ℤ (pos 0) (pos t.seq) ≡ true = ground arith in
      rw (mine, after) (by_seq_last t _ (between-Below t.account t.seq ts latest))

-- The replay of an account over a list of transactions.
abbrev pub replayed : Uuid → List Txn → ReplayState
replayed a ts = replay_rows (join_rows (txns_between a (pos 0) (pos 0) ts)) none new_replay_state

pub replay_account-replayed : (db : Db) (a : Uuid) → replay_account db a ≡ replayed a db.txns
unfolding replay_account replay_account_range
replay_account-replayed db a = refl

-- The replay goes on with the legs of the transaction that was written last.
pub replayed_appended :
    (t : Txn) (ts : List Txn)
    → 0 < t.seq
    → Below t.account t.seq ts
    → replayed t.account (t ∷ ts) ≡ replay_rows (leg_rows t.seq t.legs) none (replayed t.account ts)
unfolding join_rows
replayed_appended t ts positive latest =
    let us = txns_between t.account (pos 0) (pos 0) ts in
    let k = pos (t.seq - 1) in
    ap (λ l. replay_rows (join_rows l) none new_replay_state)
      (between_appended t ts positive latest)
    ∙ ap (λ l. replay_rows l none new_replay_state) (join_rows-append us (t ∷ []))
    ∙ rows_split k (join_rows us) (leg_rows t.seq t.legs ++ []) new_replay_state
        (join_rows-AtMost k us
          (All-map us (λ (u : Txn) h. ground arith) (between-Below t.account t.seq ts latest)))
        (rw (append-nil (leg_rows t.seq t.legs)) (leg_rows-Above k t.seq t.legs (ground arith)))
    ∙ ap (λ l. replay_rows l none (replayed t.account ts)) (append-nil (leg_rows t.seq t.legs))

-- The replay of another account does not see it.
pub replayed_elsewhere :
    (t : Txn) (ts : List Txn) (a : Uuid)
    → (a == t.account) ≡ false
    → replayed a (t ∷ ts) ≡ replayed a ts
unfolding txns_between
replayed_elsewhere t ts a e = rw e refl
