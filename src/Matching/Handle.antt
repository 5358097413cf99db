-- ===== src/Matching/Handle.antt =====
-- onOrder and onCancel of internal/matching/matching.go, on the books of the order's symbol.
pub mod Stranded
use trade_execution_operatin.Common.{
  ℕ, ◌+◌, ◌-◌, Bool, true, false, ◌&&◌, Option, none, some, List, [], ◌∷◌, ◌++◌, if◌then◌else◌, ltb,
  ◌==◌, replicate,
}
use trade_execution_operatin.Book.{
  Uuid, Name, Side, opposite, OrderType, Tif, Order, Fill, Disposition, Reason, Outcome, Level,
  Book, side_of,
}
use trade_execution_operatin.Book.Submit.{submit, can_rest, cancel}
use trade_execution_operatin.Matching.{
  Venue, Config, Books, Seen, book_at, put_book, already_seen, remember_id, primary_venue,
}
use trade_execution_operatin.Matching.Route.{RoutePlan, route}

-- book.New, for a shard's symbol and venue; a window below one is taken as one.
unfoldable pub new_book : Config → Name → Name → Book
new_book cfg symbol venue =
    let window = if cfg.dedup_window == 0 then 1 else cfg.dedup_window in
    record {
      symbol = symbol;
      venue = elim venue [ [] ↦ primary_venue [] | c ∷ cs ↦ c ∷ cs ];
      shard_id = cfg.shard_id;
      collar_bps = cfg.collar_bps;
      bids = [];
      asks = [];
      by_id = [];
      arrival = 0;
      book_seq = 0;
      dedup_ring = replicate window 0;
      dedup_set = [];
      dedup_next = 0;
      dedup_limit = window;
    }

-- One routed slice: the order with the planned quantity, as IOC.
abbrev pub slice : Order → ℕ → Order
slice o qty = record o { qty = qty; remaining = qty; tif = Tif.ioc }

abbrev pub filled_by : List Fill → ℕ
filled_by [] = 0
filled_by (f ∷ fs) = f.qty + filled_by fs

-- The loop over the plan: the books and the fills so far. `none`: a nil book, or a panic of Submit.
abbrev pub slice_done :
    Books → List Fill → Name → Option (Book × Outcome) → Option (Books × List Fill)
slice_done books fills v none = none
slice_done books fills v (some (b, out)) = some (put_book v b books, fills ++ out.fills)

abbrev pub submit_slice :
    Order → ℕ → Name → Books → List Fill → Option Book → Option (Books × List Fill)
submit_slice o qty v books fills none = none
submit_slice o qty v books fills (some b) = slice_done books fills v (submit b (slice o qty))

unfoldable pub run_plan : Order → List RoutePlan → Books → List Fill → Option (Books × List Fill)
unfolding put_book
run_plan o [] books fills = some (books, fills)
run_plan o (p ∷ ps) books fills =
    elim (submit_slice o p.qty p.venue books fills (book_at p.venue books)) [
      | none ↦ none
      | some r ↦ run_plan o ps r.0 r.1
    ]

-- What onOrder produces: the fills, in the order of their records, and the disposition.
pub record Verdict : Type 0 where
  pub fills : List Fill
  pub disposition : Disposition
  pub remaining : ℕ
  pub reason : Reason

-- The venue at which a remainder rests: the one asked for, if the shard has it.
abbrev pub host_venue : Config → Name → Option Book → Name
host_venue cfg asked none = primary_venue cfg.venues
host_venue cfg asked (some b) = asked

-- The host's book, created where there is none.
abbrev pub host_books : Config → Name → Name → Books → Option Book → Books × Book
host_books cfg symbol v books (some b) = (books, b)
host_books cfg symbol v books none = let b = new_book cfg symbol v in (books ++ (v, b) ∷ [], b)

-- The remainder goes to the host as an order of its own, under the same id.
abbrev pub remainder : Order → ℕ → Order
remainder o qty = record o { qty = qty; remaining = qty }

abbrev pub rest_done :
    Name → Books → List Fill → ℕ → Option (Book × Outcome) → Option (Books × Verdict)
rest_done v books fills remaining none = none
rest_done v books fills remaining (some (b, out)) =
    let left = remaining - filled_by out.fills in
    some (
      put_book v b books,
      record {
        fills = fills ++ out.fills;
        disposition = (if left == 0 then Disposition.complete else Disposition.rested);
        remaining = left;
        reason = Reason.no_reason;
      },
    )

unfoldable pub rest_at_host :
    Config → Name → Name → Order → ℕ → Books → List Fill → Option (Books × Verdict)
unfolding put_book
rest_at_host cfg symbol asked o remaining books fills =
    let v = host_venue cfg asked (book_at asked books) in
    let (books', host) = host_books cfg symbol v books (book_at v books) in
    rest_done v books' fills remaining (submit host (remainder o remaining))

-- cancelReason of the service: a market order found no price inside its collar, or no price at all.
unfoldable pub cancel_reason : Order → Books → Reason
cancel_reason o [] = elim o.order_type [
  | OrderType.limit ↦ Reason.ioc_remainder
  | OrderType.market ↦ Reason.book_exhausted
]
cancel_reason o (e ∷ books) =
    let later = cancel_reason o books in
    elim o.order_type [
      | OrderType.limit ↦ Reason.ioc_remainder
      | OrderType.market ↦ elim (side_of (opposite o.side) e.1) [
        | [] ↦ later
        | lv ∷ ls ↦ Reason.collar_breach
      ]
    ]

-- The switch of onOrder on what the slices left.
unfoldable pub settle_order :
    Config → Name → Name → Order → Books × List Fill → Option (Books × Verdict)
unfolding cancel_reason rest_at_host
settle_order cfg symbol asked o (books, fills) =
    let remaining = o.qty - filled_by fills in
    let verdict = λ (d : Disposition) (r : Reason).
      let out : Verdict = record {
        fills = fills;
        disposition = d;
        remaining = remaining;
        reason = r;
      } in
      out in
    let resting = rest_at_host cfg symbol asked o remaining books fills in
    if remaining == 0
    then some (books, verdict Disposition.complete Reason.no_reason)
    else if can_rest o.order_type o.tif
    then resting
    else some (books, verdict Disposition.cancelled (cancel_reason o books))

-- The state of a partition for one symbol. venueBooks has made a book for each venue.
pub record Shard : Type 0 where
  pub books : Books
  pub seen : Seen
  pub suppressed : ℕ

unfoldable pub match_routed : Config → Name → Name → Order → Books → Option (Books × Verdict)
unfolding run_plan settle_order
match_routed cfg symbol asked o books = elim (run_plan o (route cfg o books) books []) [
  | none ↦ none
  | some r ↦ settle_order cfg symbol asked o r
]

-- onOrder: `none` is a panic; a verdict of `none` is a suppressed record.
unfoldable pub on_order : Config → Name → Name → Order → Shard → Option (Shard × Option Verdict)
unfolding remember_id match_routed
on_order cfg symbol asked o st =
    let admitted = remember_id st.seen o.id in
    let matched : Option (Shard × Option Verdict) =
      elim (match_routed cfg symbol asked o st.books) [
        | none ↦ none
        | some (books, v) ↦ some (record st { books = books; seen = admitted }, some v)
      ] in
    if already_seen st.seen o.id
    then some (record st { suppressed = st.suppressed + 1 }, none)
    else matched

-- onCancel: each venue in turn, until one removes the order.
unfoldable pub on_cancel : Uuid → Books → Books × Option ℕ
on_cancel id [] = ([], none)
on_cancel id (e ∷ books) =
    let later = on_cancel id books in
    let (b, found) = cancel e.1 id in
    elim found [ some q ↦ ((e.0, b) ∷ books, some q) | none ↦ ((e.0, b) ∷ later.0, later.1) ]
