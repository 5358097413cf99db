-- ===== src/Engine/Snapshot/Checkpoint.antt =====
-- internal/engine/snapshot.go: what Snapshot leaves in the table.
use mathlib.Core.Path.{subst}
use trade_execution_operatin.Common.{
  ◌≡◌, refl, sym, ap, ◌∙◌, List, [], ◌∷◌, arith, true, false, not, ◌&&◌, Bool-cases, none, some,
  inl, inr, All, ◌==◌,
}
use trade_execution_operatin.Common.Int.{ℤ, pos, ltb_ℤ, leb_ℤ, eqb_ℤ}
use trade_execution_operatin.Common.Names.{false-ne-true}
use trade_execution_operatin.Book.{Uuid}
use trade_execution_operatin.Engine.Db.{Db}
use trade_execution_operatin.Engine.Replay.{
  ReplayState, TxnLegs, ReplayRow, new_replay_state, flush, add_leg, new_legs, replay_rows,
  txns_between, join_rows, replay_account_range, replay_account,
}
use trade_execution_operatin.Engine.Replay.Same.{Same, Same_trans}
use trade_execution_operatin.Engine.Replay.Split.{
  replay_account_range_continues, add_leg_seq, RowAbove, between-RowAbove,
}
use trade_execution_operatin.Engine.Replay.Format.{decoded}
use trade_execution_operatin.Engine.Replay.Format.Roundtrip.{IsEncodable, decode_state-encode}
use trade_execution_operatin.Engine.Snapshot.{
  SnapshotRow, recover_state, insert_snapshot, has_snapshot, delete_others, prune, checkpoint,
  snapshot, is_one_of,
}
use trade_execution_operatin.Engine.Snapshot.Recovery.{
  SoundRow, Sound, recover_state-replay_account,
}

-- The sequence number that a replay ends with is the one it had, or a row's.
module _ (P : ℤ → Type 0) where
  current_ends :
      (rs : List ReplayRow) (t : TxnLegs) (s : ReplayState)
      → P (pos t.seq)
      → All (λ (r : ReplayRow). P (pos r.seq)) rs
      → P (replay_rows rs (some t) s).seq
  unfolding replay_rows flush
  current_ends [] t s p h = p
  current_ends (r ∷ rs) t s p h = elim (Bool-cases (t.seq == r.seq)) [
    | inl e ↦ rw e (current_ends rs (add_leg r t) s (rw (add_leg_seq r t) p) h.1)
    | inr e ↦ rw e (
        current_ends rs (add_leg r (new_legs r.seq)) (flush (some t) s)
          (rw (add_leg_seq r (new_legs r.seq)) h.0) h.1)
  ]

  row_ends :
      (r : ReplayRow) (rs : List ReplayRow) (s : ReplayState)
      → All (λ (r : ReplayRow). P (pos r.seq)) (r ∷ rs)
      → P (replay_rows (r ∷ rs) none s).seq
  unfolding replay_rows
  row_ends r rs s h =
      current_ends rs (add_leg r (new_legs r.seq)) s (rw (add_leg_seq r (new_legs r.seq)) h.0) h.1

not_above : (k : ℤ) → ltb_ℤ k k ≡ false
not_above k = ground arith

-- Rows above the sequence number at which the replay ends do not exist.
none_above :
    (rs : List ReplayRow) (s : ReplayState) (k : ℤ)
    → All (RowAbove k) rs
    → (replay_rows rs none s).seq ≡ k
    → rs ≡ []
none_above [] s k h e = refl
none_above (r ∷ rs) s k h e = absurd (
    false-ne-true (
      sym (not_above k)
      ∙ subst (λ z. ltb_ℤ k z ≡ true) e (row_ends (λ z. ltb_ℤ k z ≡ true) r rs s h)))

-- A replay up to the sequence number at which the whole replay ends is the whole replay.
replay_to_end :
    (db : Db) (account : Uuid) (k : ℤ)
    → ltb_ℤ (pos 0) k ≡ true
    → (replay_account db account).seq ≡ k
    → replay_account_range db account (pos 0) k new_replay_state ≡ replay_account db account
unfolding replay_account replay_account_range replay_rows flush
replay_to_end db account k pk e =
    let cut = replay_account_range db account (pos 0) k new_replay_state in
    let later = join_rows (txns_between account k (pos 0) db.txns) in
    let whole =
      replay_account_range_continues db account (pos 0) k new_replay_state pk (ground arith) in
    let nothing =
      none_above later cut k (between-RowAbove account k (pos 0) db.txns)
        (ap (λ (s : ReplayState). s.seq) whole ∙ e) in
    sym (ap (λ rs. replay_rows rs none cut) nothing) ∙ whole

zero_or_positive :
    (z : ℤ) → leb_ℤ (pos 0) z ≡ true → eqb_ℤ z (pos 0) ≡ false → ltb_ℤ (pos 0) z ≡ true
zero_or_positive z h n = ground arith

All-trivial : {A : Type 0} (P : A → Type 0) (xs : List A) → ((a : A) → P a) → All P xs
All-trivial P [] h = tt
All-trivial P (x ∷ xs) h = (h x, All-trivial P xs h)

seq_nonneg : (rs : List ReplayRow) → leb_ℤ (pos 0) (replay_rows rs none new_replay_state).seq ≡ true
unfolding replay_rows flush
seq_nonneg [] = refl
seq_nonneg (r ∷ rs) =
    row_ends (λ z. leb_ℤ (pos 0) z ≡ true) r rs new_replay_state
      (All-trivial _ (r ∷ rs) λ r. ground arith)

replay_account_nonneg :
    (db : Db) (account : Uuid) → leb_ℤ (pos 0) (replay_account db account).seq ≡ true
unfolding replay_account replay_account_range
replay_account_nonneg db account = seq_nonneg _

module _ (db : Db) where
  insert_snapshot-Sound :
      (r : SnapshotRow) (snaps : List SnapshotRow)
      → SoundRow db r
      → Sound db snaps
      → Sound db (insert_snapshot r snaps)
  unfolding insert_snapshot
  insert_snapshot-Sound r snaps h hs =
      elim (Bool-cases (has_snapshot r.account r.account_seq snaps)) [
        | inl e ↦ rw e hs
        | inr e ↦ rw e (h, hs)
      ]

  delete_others-Sound :
      (account : Uuid) (kept : List ℤ) (snaps : List SnapshotRow)
      → Sound db snaps
      → Sound db (delete_others account kept snaps)
  unfolding delete_others
  delete_others-Sound account kept [] h = tt
  delete_others-Sound account kept (r ∷ rs) h =
      elim (Bool-cases ((account == r.account) && not (is_one_of r.account_seq kept))) [
        | inl e ↦ rw e (delete_others-Sound account kept rs h.1)
        | inr e ↦ rw e (h.0, delete_others-Sound account kept rs h.1)
      ]

  checkpoint-Sound :
      (account : Uuid) (s : ReplayState) (snaps : List SnapshotRow)
      → Same s (replay_account db account)
      → IsEncodable s
      → Sound db snaps
      → Sound db (checkpoint account s snaps)
  unfolding checkpoint prune
  checkpoint-Sound account s snaps same enc h = elim (Bool-cases (eqb_ℤ s.seq (pos 0))) [
    | inl e ↦ rw e h
    | inr e ↦
        let (s', (reads, copy)) = decode_state-encode s enc in
        let positive =
          zero_or_positive s.seq
            (subst (λ z. leb_ℤ (pos 0) z ≡ true) (sym same.seq) (replay_account_nonneg db account))
            e in
        let whole = replay_to_end db account s.seq positive (sym same.seq) in
        rw e (
          delete_others-Sound account _ _ (
            insert_snapshot-Sound _ snaps
              (record {
                state = s';
                reads = reads;
                seq = copy.seq;
                positive = positive;
                replayed = subst (Same s') (sym whole) (Same_trans copy same);
              })
              h))
  ]

the_state : {s t : ReplayState} → decoded s ≡ decoded t → s ≡ t
the_state e = cc

-- Snapshot keeps every checkpoint sound. From a table of sound checkpoints it answers the state of the
-- replay from genesis, and when that state can be encoded every row of the table it leaves, the new one
-- and those that were not pruned, reads back as the replay of its account up to its sequence number.
pub snapshot-Sound :
    (db : Db) (snaps : List SnapshotRow) (account : Uuid) (s : ReplayState)
    → Sound db snaps
    → recover_state db snaps account ≡ decoded s
    → IsEncodable s
    → (snapshot db snaps account ≡ decoded (s, checkpoint account s snaps))
      × (Same s (replay_account db account) × Sound db (checkpoint account s snaps))
unfolding snapshot
snapshot-Sound db snaps account s h e enc =
    let (s', (e', same)) = recover_state-replay_account db snaps account h in
    let agree = subst (λ s. Same s (replay_account db account)) (the_state (sym e' ∙ e)) same in
    (rw e refl, (agree, checkpoint-Sound db account s snaps agree enc h))
