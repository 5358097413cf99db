-- ===== src/Matching.antt =====
-- internal/matching: the venues of a shard, the books of one symbol by venue, and the ids that a
-- partition has seen.
pub mod Route
pub mod Handle
mod Tests
use trade_execution_operatin.Common.{
  ℕ, ◌+◌, ◌%◌, Bool, true, false, Option, none, some, List, [], ◌∷◌, if◌then◌else◌, length, set,
  get_or, ◌==◌,
}
use trade_execution_operatin.Common.Dict.{contains, remove}
use trade_execution_operatin.Common.Names.{name_eq}
use trade_execution_operatin.Book.{Uuid, Name, Book}

-- type Venue
pub record Venue : Type 0 where
  pub name : Name
  pub latency : ℕ

-- The part of Config that matching depends on.
pub record Config : Type 0 where
  pub shard_id : ℕ
  pub venues : List Venue
  pub collar_bps : ℕ
  pub dedup_window : ℕ

-- map[string]*book.Book, in the order of sort.Strings on its keys.
abbrev pub Books : Type 0
Books = List (Name × Book)

unfoldable pub book_at : Name → Books → Option Book
book_at v [] = none
book_at v (e ∷ books) = let later = book_at v books in if name_eq v e.0 then some e.1 else later

-- What a call on the book of a venue leaves, written through its pointer.
unfoldable pub put_book : Name → Book → Books → Books
put_book v b [] = []
put_book v b (e ∷ books) =
    let later = put_book v b books in if name_eq v e.0 then (e.0, b) ∷ books else e ∷ later

-- The dedup state of partitionState.
pub record Seen : Type 0 where
  pub ids : List Uuid
  pub ring : List Uuid
  pub next : ℕ

-- alreadySeen
abbrev pub already_seen : Seen → Uuid → Bool
already_seen s id = contains id s.ids

-- remember of partitionState: without a ring it does nothing.
unfoldable pub remember_id : Seen → Uuid → Seen
remember_id s id =
    let old = get_or s.ring s.next 0 in
    let kept = if old == 0 then s.ids else remove old s.ids in
    if length s.ring == 0 then s else if contains id s.ids then s else record {
      ids = id ∷ kept;
      ring = set s.ring s.next id;
      next = (s.next + 1) % length s.ring;
    }

-- venueLatency: of the first venue of that name, or zero.
abbrev pub venue_latency : Name → List Venue → ℕ
venue_latency v [] = 0
venue_latency v (x ∷ xs) =
    let later = venue_latency v xs in if name_eq x.name v then x.latency else later

-- primaryVenue: the first venue, or book.DefaultVenue, which is "PRIMARY".
abbrev pub primary_venue : List Venue → Name
primary_venue [] = 80 ∷ 82 ∷ 73 ∷ 77 ∷ 65 ∷ 82 ∷ 89 ∷ []
primary_venue (x ∷ xs) = x.name
