-- ===== src/Engine/Replay/Split.antt =====
-- internal/engine/replay.go: a replay that continues from an earlier one.
use trade_execution_operatin.Common.{
  ℕ, ◌≡◌, refl, sym, ◌∙◌, ap, true, false, ◌&&◌, ◌||◌, none, some, List, [], ◌∷◌, ◌++◌, ltb, ◌==◌,
  arith, Bool-cases, inl, inr, All, All-append,
}
use mathlib.Core.List.{append_assoc}
use trade_execution_operatin.Common.Int.{ℤ, pos, ltb_ℤ, leb_ℤ, eqb_ℤ}
use trade_execution_operatin.Book.{Uuid}
use trade_execution_operatin.Engine.Db.{Leg, Txn, Db}
use trade_execution_operatin.Engine.Replay.{
  ReplayState, TxnLegs, ReplayRow, flush, add_leg, new_legs, replay_rows, by_seq, txns_between,
  leg_rows, join_rows, replay_account_range,
}

abbrev pub AtMost : ℤ → Txn → Type 0
AtMost k t = leb_ℤ (pos t.seq) k ≡ true

abbrev pub Above : ℤ → Txn → Type 0
Above k t = ltb_ℤ k (pos t.seq) ≡ true

pub All-by_seq : (P : Txn → Type 0) (t : Txn) (us : List Txn) → P t → All P us → All P (by_seq t us)
unfolding by_seq
All-by_seq P t [] p h = (p, tt)
All-by_seq P t (u ∷ us) p h = elim (Bool-cases (ltb t.seq u.seq)) [
  | inl e ↦ rw e (p, (h.0, h.1))
  | inr e ↦ rw e (h.0, All-by_seq P t us p h.1)
]

module _ (account : Uuid) (k : ℤ) where
  between-AtMost :
      (from : ℤ) (ts : List Txn)
      → ltb_ℤ (pos 0) k ≡ true
      → All (AtMost k) (txns_between account from k ts)
  unfolding txns_between
  between-AtMost from [] pk = tt
  between-AtMost from (t ∷ ts) pk =
      elim (Bool-cases (
        ((account == t.account) && ltb_ℤ from (pos t.seq))
        && (eqb_ℤ k (pos 0) || leb_ℤ (pos t.seq) k))) [
          | inl e ↦ rw e (All-by_seq (AtMost k) t _ (ground arith) (between-AtMost from ts pk))
          | inr e ↦ rw e (between-AtMost from ts pk)
        ]

  between-Above : (to : ℤ) (ts : List Txn) → All (Above k) (txns_between account k to ts)
  unfolding txns_between
  between-Above to [] = tt
  between-Above to (t ∷ ts) =
      elim (Bool-cases (
        ((account == t.account) && ltb_ℤ k (pos t.seq))
        && (eqb_ℤ to (pos 0) || leb_ℤ (pos t.seq) to))) [
          | inl e ↦ rw e (All-by_seq (Above k) t _ (ground arith) (between-Above to ts))
          | inr e ↦ rw e (between-Above to ts)
        ]

  by_seq_front :
      (t : Txn) (front back : List Txn)
      → AtMost k t
      → All (Above k) back
      → by_seq t (front ++ back) ≡ by_seq t front ++ back
  unfolding by_seq
  by_seq_front t [] [] h b = refl
  by_seq_front t [] (u ∷ us) h b =
      let e : ltb t.seq u.seq ≡ true = let b0 = b.0 in ground arith in rw e refl
  by_seq_front t (u ∷ us) back h b = elim (Bool-cases (ltb t.seq u.seq)) [
    | inl e ↦ rw e refl
    | inr e ↦ rw e (ap (λ x. u ∷ x) (by_seq_front t us back h b))
  ]

  by_seq_back :
      (t : Txn) (front back : List Txn)
      → Above k t
      → All (AtMost k) front
      → by_seq t (front ++ back) ≡ front ++ by_seq t back
  unfolding by_seq
  by_seq_back t [] back h f = refl
  by_seq_back t (u ∷ us) back h f =
      let e : ltb t.seq u.seq ≡ false = let f0 = f.0 in ground arith in
      rw e (ap (λ x. u ∷ x) (by_seq_back t us back h f.1))

  -- The query cut at a sequence number.
  pub between_split :
      (from : ℤ) (ts : List Txn)
      → ltb_ℤ (pos 0) k ≡ true
      → leb_ℤ from k ≡ true
      → txns_between account from (pos 0) ts
        ≡ txns_between account from k ts ++ txns_between account k (pos 0) ts
  unfolding txns_between
  between_split from [] pk h = refl
  between_split from (t ∷ ts) pk h = ground (
    arith,
    between_split from ts pk h,
    by_seq_front t (txns_between account from k ts) (txns_between account k (pos 0) ts),
    by_seq_back t (txns_between account from k ts) (txns_between account k (pos 0) ts),
    between-AtMost from ts pk,
    between-Above (pos 0) ts,
  )

pub join_rows-append : (a b : List Txn) → join_rows (a ++ b) ≡ join_rows a ++ join_rows b
unfolding join_rows
join_rows-append [] b = refl
join_rows-append (t ∷ a) b =
    ap (λ x. leg_rows t.seq t.legs ++ x) (join_rows-append a b)
    ∙ sym (append_assoc (leg_rows t.seq t.legs) (join_rows a) (join_rows b))

pub add_leg_seq : (r : ReplayRow) (t : TxnLegs) → (add_leg r t).seq ≡ t.seq
unfolding add_leg
add_leg_seq r t = ground arith

module _ (k : ℤ) where
  abbrev pub RowAtMost : ReplayRow → Type 0
  RowAtMost r = leb_ℤ (pos r.seq) k ≡ true

  abbrev pub RowAbove : ReplayRow → Type 0
  RowAbove r = ltb_ℤ k (pos r.seq) ≡ true

  leg_rows-AtMost : (n : ℕ) (ls : List Leg) → leb_ℤ (pos n) k ≡ true → All RowAtMost (leg_rows n ls)
  unfolding leg_rows
  leg_rows-AtMost n [] h = tt
  leg_rows-AtMost n (l ∷ ls) h = (h, leg_rows-AtMost n ls h)

  pub leg_rows-Above :
      (n : ℕ) (ls : List Leg) → ltb_ℤ k (pos n) ≡ true → All RowAbove (leg_rows n ls)
  unfolding leg_rows
  leg_rows-Above n [] h = tt
  leg_rows-Above n (l ∷ ls) h = (h, leg_rows-Above n ls h)

  pub join_rows-AtMost : (ts : List Txn) → All (AtMost k) ts → All RowAtMost (join_rows ts)
  unfolding join_rows
  join_rows-AtMost [] h = tt
  join_rows-AtMost (t ∷ ts) h =
      All-append RowAtMost (leg_rows t.seq t.legs) (join_rows ts) (leg_rows-AtMost t.seq t.legs h.0)
        (join_rows-AtMost ts h.1)

  join_rows-Above : (ts : List Txn) → All (Above k) ts → All RowAbove (join_rows ts)
  unfolding join_rows
  join_rows-Above [] h = tt
  join_rows-Above (t ∷ ts) h =
      All-append RowAbove (leg_rows t.seq t.legs) (join_rows ts) (leg_rows-Above t.seq t.legs h.0)
        (join_rows-Above ts h.1)

  -- What is accumulated when the first later row comes is flushed before it.
  flushes_first :
      (t : TxnLegs) (rs : List ReplayRow) (s : ReplayState)
      → leb_ℤ (pos t.seq) k ≡ true
      → All RowAbove rs
      → replay_rows rs (some t) s ≡ replay_rows rs none (flush (some t) s)
  unfolding replay_rows flush
  flushes_first t [] s h a = refl
  flushes_first t (r ∷ rs) s h a =
      let e : (t.seq == r.seq) ≡ false = let b = a.0 in ground arith in rw e refl

  stays_AtMost :
      (r : ReplayRow) (t : TxnLegs)
      → leb_ℤ (pos t.seq) k ≡ true
      → leb_ℤ (pos (add_leg r t).seq) k ≡ true
  stays_AtMost r t h = rw (add_leg_seq r t) h

  current_split :
      (rs later : List ReplayRow) (t : TxnLegs) (s : ReplayState)
      → leb_ℤ (pos t.seq) k ≡ true
      → All RowAtMost rs
      → All RowAbove later
      → replay_rows (rs ++ later) (some t) s ≡ replay_rows later none (replay_rows rs (some t) s)
  unfolding replay_rows
  current_split [] later t s h a b = flushes_first t later s h b
  current_split (r ∷ rs) later t s h a b = elim (Bool-cases (t.seq == r.seq)) [
    | inl e ↦ rw e (current_split rs later (add_leg r t) s (stays_AtMost r t h) a.1 b)
    | inr e ↦ rw e (
        current_split rs later (add_leg r (new_legs r.seq)) (flush (some t) s)
          (stays_AtMost r (new_legs r.seq) a.0) a.1 b)
  ]

  pub rows_split :
      (rs later : List ReplayRow) (s : ReplayState)
      → All RowAtMost rs
      → All RowAbove later
      → replay_rows (rs ++ later) none s ≡ replay_rows later none (replay_rows rs none s)
  unfolding replay_rows flush
  rows_split [] later s a b = refl
  rows_split (r ∷ rs) later s a b =
      current_split rs later (add_leg r (new_legs r.seq)) s (stays_AtMost r (new_legs r.seq) a.0)
        a.1 b

pub between-RowAbove :
    (account : Uuid) (k to : ℤ) (ts : List Txn)
    → All (RowAbove k) (join_rows (txns_between account k to ts))
between-RowAbove account k to ts = join_rows-Above k _ (between-Above account k to ts)

-- A replay up to a sequence number, continued from it to the end, is the replay to the end: the
-- transactions are interpreted the same, and each is interpreted once.
pub replay_account_range_continues :
    (db : Db) (account : Uuid) (from k : ℤ) (s : ReplayState)
    → ltb_ℤ (pos 0) k ≡ true
    → leb_ℤ from k ≡ true
    → replay_account_range db account k (pos 0) (replay_account_range db account from k s)
      ≡ replay_account_range db account from (pos 0) s
unfolding replay_account_range
replay_account_range_continues db account from k s pk h =
    let front = txns_between account from k db.txns in
    let back = txns_between account k (pos 0) db.txns in
    sym (
      ap (λ ts. replay_rows (join_rows ts) none s) (between_split account k from db.txns pk h)
      ∙ ap (λ rs. replay_rows rs none s) (join_rows-append front back)
      ∙ rows_split k (join_rows front) (join_rows back) s
          (join_rows-AtMost k front (between-AtMost account k from db.txns pk))
          (between-RowAbove account k (pos 0) db.txns))
