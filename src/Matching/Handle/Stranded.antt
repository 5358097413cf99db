-- ===== src/Matching/Handle/Stranded.antt =====
-- What onOrder of internal/matching/matching.go does with the remainder of an order that its host
-- venue has already seen.
use trade_execution_operatin.Common.{
  ℕ, ◌-◌, ◌<◌, ◌≡◌, refl, ◌∙◌, Bool, if◌then◌else◌, true, false, some, List, [], ◌∷◌, ◌++◌, ◌==◌,
  arith, Bool-cases, inl, inr,
}
use trade_execution_operatin.Common.Names.{name_eq, name_eq_refl, name_eq_sound}
use trade_execution_operatin.Book.{
  Name, OrderType, Tif, Order, Fill, Disposition, Reason, Outcome, Book, side_of,
}
use trade_execution_operatin.Book.Submit.{submit, can_rest, ignored}
use trade_execution_operatin.Book.Submit.Again.{submit_twice}
use trade_execution_operatin.Book.Submit.Ioc.{submit-own}
use trade_execution_operatin.Matching.{
  Config, Books, book_at, put_book, primary_venue, already_seen, remember_id,
}
use trade_execution_operatin.Matching.Route.{route}
use trade_execution_operatin.Matching.Handle.{
  slice, filled_by, slice_done, submit_slice, run_plan, Verdict, host_venue, host_books, remainder,
  rest_done, rest_at_host, settle_order, match_routed, Shard, on_order,
}

-- A shard with one venue.
abbrev pub one_book : Name → Book → Books
one_book v b = (v, b) ∷ []

book_at-one : (v : Name) (b : Book) → book_at v (one_book v b) ≡ some b
unfolding book_at
book_at-one v b = rw (name_eq_refl v) refl

put_book-one : (v : Name) (b b' : Book) → put_book v b' (one_book v b) ≡ one_book v b'
unfolding put_book
put_book-one v b b' = rw (name_eq_refl v) refl

run_plan-one :
    (v : Name) (b b' : Book) (o : Order) (q : ℕ) (out : Outcome)
    → submit b (slice o q) ≡ some (b', out)
    → run_plan o (record { venue = v; qty = q } ∷ []) (one_book v b) []
      ≡ some (one_book v b', out.fills)
unfolding run_plan
run_plan-one v b b' o q out e =
    rw (run_plan, book_at-one v b, submit_slice, e, slice_done, put_book-one v b b') refl

-- Whatever venue an order asks for, it rests at the only one.
host_venue-one :
    (cfg : Config) (v asked : Name) (b : Book)
    → primary_venue cfg.venues ≡ v
    → host_venue cfg asked (book_at asked (one_book v b)) ≡ v
unfolding book_at
host_venue-one cfg v asked b one = elim (Bool-cases (name_eq asked v)) [
  | inl e ↦ rw e (name_eq_sound asked v e)
  | inr e ↦ rw e one
]

-- The book answers the remainder with a duplicate.
rest_at_host-seen :
    (cfg : Config) (symbol v asked : Name) (o : Order) (q n : ℕ) (b b' : Book) (out : Outcome)
    (fills : List Fill)
    → primary_venue cfg.venues ≡ v
    → submit b (slice o q) ≡ some (b', out)
    → rest_at_host cfg symbol asked o n (one_book v b') fills
      ≡ rest_done v (one_book v b') fills n (some (b', ignored))
unfolding rest_at_host
rest_at_host-seen cfg symbol v asked o q n b b' out fills one e = rw (
  host_venue-one cfg v asked b' one,
  book_at-one v b',
  host_books,
  submit_twice b (slice o q) (remainder o n) b' out e refl,
)

slice_rests : (t : OrderType) → can_rest t Tif.ioc ≡ false
slice_rests OrderType.market = refl
slice_rests OrderType.limit = refl

-- The remainder that is reported to rest, and the side of the book that it is not on.
match_routed_strands :
    (cfg : Config) (symbol v asked : Name) (o : Order) (q : ℕ) (b b' : Book) (out : Outcome)
    → primary_venue cfg.venues ≡ v
    → can_rest o.order_type o.tif ≡ true
    → route cfg o (one_book v b) ≡ record { venue = v; qty = q } ∷ []
    → submit b (slice o q) ≡ some (b', out)
    → filled_by out.fills < o.qty
    → match_routed cfg symbol asked o (one_book v b)
      ≡ some (
        one_book v b',
        record {
          fills = out.fills ++ [];
          disposition = Disposition.rested;
          remaining = o.qty - filled_by out.fills;
          reason = Reason.no_reason;
        },
      )
unfolding match_routed settle_order
match_routed_strands cfg symbol v asked o q b b' out one gtc plan e part =
    let n = o.qty - filled_by out.fills in
    let left : (n == 0) ≡ false = ground arith in
    let whole : n - filled_by ignored.fills ≡ n = omega arith in
    let seen = rest_at_host-seen cfg symbol v asked o q n b b' out out.fills one e in
    rw
      (
        match_routed,
        plan,
        run_plan-one v b b' o q out e,
        left,
        gtc,
        seen,
        rest_done,
        put_book-one v b' b',
        whole,
        left,
      )
      refl

if_false {ℓ} : {A : Type ℓ} (c : Bool) (x y : A) → c ≡ false → (if c then x else y) ≡ y
if_false c x y h = rw h refl

-- onOrder on an id that the partition has not seen.
on_order-new :
    (cfg : Config) (symbol asked : Name) (o : Order) (st : Shard) (books : Books)
    (r : Books × Verdict)
    → st.books ≡ books
    → already_seen st.seen o.id ≡ false
    → match_routed cfg symbol asked o books ≡ some r
    → on_order cfg symbol asked o st
      ≡ some (record st { books = r.0; seen = remember_id st.seen o.id }, some r.1)
unfolding on_order
on_order-new cfg symbol asked o st books r same new e = if_false _ _ _ new ∙ rw (same, e) refl

-- On a shard with one venue, take a GTC limit order that the partition has not seen, whatever venue it
-- asks for (none, this one, or one that the shard does not run), that the router sends to that venue
-- for some quantity, and that this slice does not fill in full. onOrder reports it as RESTED with the
-- quantity that is left, but no order rests: the order's own side of the book is what it was before,
-- since the book takes the remainder, under the same id, for a duplicate.
pub on_order_strands :
    (cfg : Config) (symbol v asked : Name) (o : Order) (q : ℕ) (b b' : Book) (out : Outcome)
    (st : Shard)
    → primary_venue cfg.venues ≡ v
    → st.books ≡ one_book v b
    → already_seen st.seen o.id ≡ false
    → can_rest o.order_type o.tif ≡ true
    → route cfg o (one_book v b) ≡ record { venue = v; qty = q } ∷ []
    → submit b (slice o q) ≡ some (b', out)
    → filled_by out.fills < o.qty
    → (verdict : Verdict) × (on_order cfg symbol asked o st
        ≡ some (record st { books = one_book v b'; seen = remember_id st.seen o.id }, some verdict))
      × (verdict.disposition ≡ Disposition.rested)
      × (verdict.remaining ≡ o.qty - filled_by out.fills)
      × (side_of o.side b' ≡ side_of o.side b)
on_order_strands cfg symbol v asked o q b b' out st one books new gtc plan e part =
    let verdict : Verdict = record {
      fills = out.fills ++ [];
      disposition = Disposition.rested;
      remaining = o.qty - filled_by out.fills;
      reason = Reason.no_reason;
    } in
    (
      verdict,
      on_order-new cfg symbol asked o st (one_book v b) (one_book v b', verdict) books new
          (match_routed_strands cfg symbol v asked o q b b' out one gtc plan e part),
      refl,
      refl,
      submit-own b (slice o q) b' out (slice_rests o.order_type) e,
    )
