-- ===== src/Engine/Lease/Fence.antt =====
-- What the epochs of internal/engine/lease.go promise, and where the promise ends: a holder that was
-- replaced is kept out as long as nobody gives the lease back.
use trade_execution_operatin.Common.{
  ℕ, ◌<◌, ◌≡◌, refl, true, inl, inr, Option-cases, Option, none, some, arith,
}
use trade_execution_operatin.Book.{Uuid}
use trade_execution_operatin.Engine.Db.{LeaseRow, Db, lease_lost, ok, err, Tx, ⊤}
use trade_execution_operatin.Engine.Ledger.{assert_lease, commit, in_tx}
use trade_execution_operatin.Engine.Lease.{Lease, acquire, release, next_epoch, holds}

-- What other processes may do to the database while no lease is released: take the partition, and
-- commit transactions under any lease, none of which writes the lease row.
pub data Goes (db : Db) : Db → Type 0 where
  stays : Goes db db
  taken : {db' : Db} (owner : Uuid) → Goes db db' → Goes db (acquire owner db').1
  wrote :
      {db' db'' : Db} (lease : Option ℕ) (fn : Tx ⊤)
      → in_tx lease fn db' ≡ ok (tt, db'')
      → db''.lease ≡ db'.lease
      → Goes db db'
      → Goes db db''

-- The row is there, and its epoch is past `e`.
abbrev pub Past : ℕ → Option LeaseRow → Type 0
Past e none = ⊥
Past e (some r) = e < r.epoch

next_epoch-Past : (e : ℕ) (r : Option LeaseRow) → Past e r → e < next_epoch r
next_epoch-Past e none h = elim h [ ]
next_epoch-Past e (some r) h = omega arith

next_epoch-holds : (l : Lease) (r : Option LeaseRow) → holds l r ≡ true → l.epoch < next_epoch r
next_epoch-holds l none h = cc
next_epoch-holds l (some r) h = ground arith

Goes-Past : (e : ℕ) {db db' : Db} → Goes db db' → Past e db.lease → Past e db'.lease
unfolding acquire
Goes-Past e stays h = h
Goes-Past e (taken {db'} owner g) h = next_epoch-Past e db'.lease (Goes-Past e g h)
Goes-Past e (wrote lease fn done same g) h = rw same (Goes-Past e g h)

assert_lease-Past : (e : ℕ) (db : Db) → Past e db.lease → assert_lease (some e) db ≡ err lease_lost
unfolding assert_lease
assert_lease-Past e db h = elim (Option-cases db.lease) [
  | inl n ↦ rw n refl
  | inr (r, s) ↦ let past : Past e (some r) = rw s at h in rw s (ground arith)
]

-- The fence: once another process has taken the partition from its holder, no transaction of that
-- holder commits any more, whatever it would have written, through any further takeovers and any
-- commits that leave the lease row alone, as long as no process releases the lease.
pub fenced :
    (l : Lease) (db db' : Db) (owner : Uuid) (fn : Tx ⊤)
    → holds l db.lease ≡ true
    → Goes (acquire owner db).1 db'
    → in_tx (some l.epoch) fn db' ≡ err lease_lost
unfolding in_tx acquire
fenced l db db' owner fn h g =
    rw (assert_lease-Past l.epoch db' (Goes-Past l.epoch g (next_epoch-holds l db.lease h))) refl

-- The newcomer itself is let through: right after it took the partition its transactions run.
pub acquire-asserts :
    (owner : Uuid) (db : Db) (fn : Tx ⊤)
    → let (l, db') = acquire owner db in in_tx (some l.epoch) fn db' ≡ commit db'.txns (fn db')
unfolding acquire in_tx assert_lease
acquire-asserts owner db fn = ground arith

-- The fence does not outlast a release. On a partition without a lease row, where a first process
-- takes the lease, a second one takes it over and then releases it, and a third one takes it, the
-- first process passes the assertion again and its transaction runs as if it were the holder.
pub release_unfences :
    (db : Db) (a b c : Uuid) (fn : Tx ⊤)
    → db.lease ≡ none
    → let (first, db1) = acquire a db in
      let (second, db2) = acquire b db1 in
      let (third, db3) = acquire c (release second db2) in
      in_tx (some first.epoch) fn db3 ≡ commit db3.txns (fn db3)
unfolding acquire in_tx assert_lease release
release_unfences db a b c fn e = ground arith
