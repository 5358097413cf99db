-- ===== src/Book/Submit/Later.antt =====
-- Submit, Cancel and Restore of internal/book/book.go between two Submits of one id.
use mathlib.Core.Path.{subst}
use trade_execution_operatin.Common.{
  ℕ, zero, suc, ◌+◌, ◌<◌, ◌≡◌, refl, sym, ap, ◌∙◌, false, Option, some, List, [], ◌∷◌, ◌==◌, arith,
  Bool-cases, Option-cases, inl, inr, ◌⊎◌, none-ne-some,
}
use trade_execution_operatin.Book.{Uuid, Order, Outcome, Book}
use trade_execution_operatin.Book.Submit.{seen, remember, ignored, submit, cancel, restore}
use trade_execution_operatin.Book.Submit.Dedup.{dedup, submit-dedup, cancel-dedup, restore-dedup}
use trade_execution_operatin.Book.Submit.Cancel.{submit-seen}
use trade_execution_operatin.Book.Submit.Window.{
  Dedup, IsRing, IsHeld, remember-IsRing, remember-IsHeld, IsHeld-fewer, remembered-IsHeld, Call,
  submitting, cancelling, restoring, call, calls, entries, seen-IsHeld, seen-false,
}

-- What a call does to the dedup state: nothing, or it enters one id.
abbrev Enters : Call → Book → Book → Type 0
Enters c b b' =
    (dedup b' ≡ dedup b) ⊎ ((x : Uuid) × (dedup b' ≡ dedup (remember b x)) × (entries (c ∷ []) ≡ 1))

submit-Enters :
    (b : Book) (o : Order) (r : Book × Outcome) → submit b o ≡ some r → Enters (submitting o) b r.0
submit-Enters b o (b', out) e = elim (Bool-cases (seen b o.id)) [
  | inl known ↦
      let r : ◌≡◌ {A = Option (Book × Outcome)} (some (b, ignored)) (some (b', out)) =
        sym (submit-seen b o known) ∙ e in
      let same : b' ≡ b = cc in inl (ap dedup same)
  | inr new ↦ inr (o.id, submit-dedup b o b' out new e, refl)
]

call_of_submit :
    (b b' : Book) (o : Order) (r : Book × Outcome)
    → submit b o ≡ some r
    → call (submitting o) b ≡ some b'
    → r.0 ≡ b'
call_of_submit b b' o r done e = let f : some r.0 ≡ some b' = rw (done, call) at e in cc

call-Enters : (c : Call) (b b' : Book) → call c b ≡ some b' → Enters c b b'
call-Enters (submitting o) b b' e = elim (Option-cases (submit b o)) [
  | inl stuck ↦ absurd (none-ne-some (rw (stuck, call) at e))
  | inr (r, done) ↦
      subst (Enters (submitting o) b) (call_of_submit b b' o r done e) (submit-Enters b o r done)
]
call-Enters (cancelling id) b b' e =
    let same : (cancel b id).0 ≡ b' = cc in
    subst (Enters (cancelling id) b) same (inl (cancel-dedup b id))
call-Enters (restoring o) b b' e =
    let same : restore b o ≡ b' = cc in
    subst (Enters (restoring o) b) same
      (elim (restore-dedup b o) [ inl kept ↦ inl kept | inr entered ↦ inr (o.id, entered, refl) ])

call-IsRing : (c : Call) (b b' : Book) → call c b ≡ some b' → IsRing (dedup b) → IsRing (dedup b')
call-IsRing c b b' e r = elim (call-Enters c b b' e) [
  | inl same ↦ subst IsRing (sym same) r
  | inr (x, entered, one) ↦ subst IsRing (sym entered) (remember-IsRing b x r)
]

IsHeld-drop : (id m k : ℕ) (d : Dedup) → IsHeld id (m + k) d → IsHeld id k d
IsHeld-drop id zero k d h = subst (λ n. IsHeld id n d) (omega arith) h
IsHeld-drop id (suc m) k d h =
    IsHeld-drop id m k d (IsHeld-fewer id (m + k) d (subst (λ n. IsHeld id n d) (omega arith) h))

call-IsHeld :
    (c : Call) (id k : ℕ) (b b' : Book)
    → call c b ≡ some b'
    → IsHeld id (entries (c ∷ []) + k) (dedup b)
    → IsHeld id k (dedup b')
call-IsHeld c id k b b' e h = elim (call-Enters c b b' e) [
  | inl same ↦ subst (IsHeld id k) (sym same) (IsHeld-drop id (entries (c ∷ [])) k (dedup b) h)
  | inr (x, entered, one) ↦
      let n : entries (c ∷ []) + k ≡ suc k = omega (arith, one) in
      subst (IsHeld id k) (sym entered)
        (remember-IsHeld b x id k (subst (λ m. IsHeld id m (dedup b)) n h))
]

entries-cons : (c : Call) (cs : List Call) → entries (c ∷ cs) ≡ entries (c ∷ []) + entries cs
entries-cons (submitting o) cs = omega arith
entries-cons (cancelling id) cs = omega arith
entries-cons (restoring o) cs = omega arith

-- The ring and the id over a sequence of calls.
calls-IsHeld :
    (cs : List Call) (id : ℕ) (b b' : Book)
    → calls cs b ≡ some b'
    → IsRing (dedup b)
    → IsHeld id (entries cs) (dedup b)
    → IsRing (dedup b') × IsHeld id 0 (dedup b')
unfolding calls
calls-IsHeld [] id b b' e r h =
    let same : b ≡ b' = cc in
    (subst (λ x. IsRing (dedup x)) same r, subst (λ x. IsHeld id 0 (dedup x)) same h)
calls-IsHeld (c ∷ cs) id b b' e r h = elim (Option-cases (call c b)) [
  | inl stuck ↦ absurd (none-ne-some (rw (stuck, calls) at e))
  | inr (b1, done) ↦
      let later : calls cs b1 ≡ some b' = rw (done, calls) at e in
      let h1 = subst (λ n. IsHeld id n (dedup b)) (entries-cons c cs) h in
      calls-IsHeld cs id b1 b' later (call-IsRing c b b1 done r)
        (call-IsHeld c id (entries cs) b b1 done h1)
]

-- After Submit has returned for an order whose id the book had not seen and which is not the nil id,
-- let any calls of Submit, Cancel and Restore follow, which return, and of which fewer than the ring
-- has slots are Submits or Restores. Then a Submit under that id, whatever else it asks for and whether
-- or not the order still rests, changes nothing and reports a duplicate. The ring is taken to be well
-- formed before (its length is the window, its next slot is inside, and an id that it holds is held
-- once and is in the set), and is so afterwards.
pub submit_again :
    (cs : List Call) (b b' b'' : Book) (o o' : Order) (out : Outcome)
    → IsRing (dedup b)
    → (o.id == 0) ≡ false
    → seen b o.id ≡ false
    → submit b o ≡ some (b', out)
    → calls cs b' ≡ some b''
    → entries cs < b.dedup_limit
    → o'.id ≡ o.id
    → (submit b'' o' ≡ some (b'', ignored)) × IsRing (dedup b'')
submit_again cs b b' b'' o o' out r nil new e later few same =
    let entered = sym (submit-dedup b o b' out new e) in
    let held = remembered-IsHeld b o.id (entries cs) r nil (seen-false b o.id new) few in
    let (r'', h'') =
      calls-IsHeld cs o.id b' b'' later (subst IsRing entered (remember-IsRing b o.id r))
        (subst (IsHeld o.id (entries cs)) entered held) in
    (submit-seen b'' o' (rw same (seen-IsHeld b'' o.id 0 h'')), r'')
