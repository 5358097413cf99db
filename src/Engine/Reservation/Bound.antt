-- ===== src/Engine/Reservation/Bound.antt =====
-- The promise of sizeReservation in internal/engine/submit.go: what a buy can cost, whatever way it
-- fills inside its bound, is at most what was reserved.
use mathlib.Core.Path.{subst}
use trade_execution_operatin.Common.{
  ℕ, ◌+◌, ◌*◌, ◌/◌, ◌≤◌, ◌≡◌, refl, sym, ◌∙◌, Option, none, some, List, [], ◌∷◌, if◌then◌else◌,
  arith, ltb, All, Bool-cases, Option-cases, inl, inr,
}
use native.Mathlib.Nat.{le_trans}
use trade_execution_operatin.Common.Int.{ℤ, pos, ◌+ℤ◌, ◌≤ℤ◌}
use trade_execution_operatin.Common.Int64.{max_int64}
use trade_execution_operatin.Money.{
  Minor, notional, notional_ceil, fee_bps, add, qty_scale, bps_scale,
}
use trade_execution_operatin.Money.Notional.{notional_exact, notional_ceil_exact, ceil_div}
use trade_execution_operatin.Money.Fee.{fee_bps_nonneg}
use trade_execution_operatin.Money.Band.{add_exact, ceil_div-le}
use trade_execution_operatin.Book.{Side}
use trade_execution_operatin.Engine.Reservation.{
  Config, Request, Reservation, price_bound, size_buy, size_reservation,
}

-- The sizes of the fills of one order, as (quantity, price).
abbrev pub Fills : Type 0
Fills = List (ℕ × ℕ)

abbrev pub filled_qty : Fills → ℕ
filled_qty [] = 0
filled_qty ((q, p) ∷ fs) = q + filled_qty fs

abbrev pub InBound : ℕ → Fills → Type 0
InBound bound = All (λ f. f.1 ≤ bound)

-- The notional that the settlement of the fills adds up: Notional of each, summed.
unfoldable pub settled : Fills → Option Minor
settled [] = some (pos 0)
settled ((q, p) ∷ fs) = elim (notional (pos q) (pos p)) [
  | none ↦ none
  | some n ↦ elim (settled fs) [ none ↦ none | some rest ↦ add n rest ]
]

abbrev floor_total : Fills → ℕ
floor_total [] = 0
floor_total ((q, p) ∷ fs) = q * p / qty_scale + floor_total fs

-- Rounding each fill down loses: the sum is at most the rounded product of the whole.
floor_total-le :
    (bound : ℕ) (fs : Fills) → InBound bound fs → floor_total fs ≤ filled_qty fs * bound / qty_scale
floor_total-le bound [] h = omega arith
floor_total-le bound ((q, p) ∷ fs) h =
    let one : q * p ≤ q * bound = grind arith in
    let split : (q + filled_qty fs) * bound ≡ q * bound + filled_qty fs * bound = omega arith in
    omega (arith, floor_total-le bound fs h.1)

notional-fits :
    (q p : ℕ)
    → q ≤ max_int64
    → p ≤ max_int64
    → q * p / qty_scale ≤ max_int64
    → notional (pos q) (pos p) ≡ some (pos (q * p / qty_scale))
notional-fits q p hq hp h =
    notional_exact (pos q) (pos p) (hq, omega arith) (hp, omega arith) ∙ ground arith

settled-exact :
    (fs : Fills)
    → All (λ f. (f.0 ≤ max_int64) × (f.1 ≤ max_int64)) fs
    → floor_total fs ≤ max_int64
    → settled fs ≡ some (pos (floor_total fs))
unfolding settled ◌+ℤ◌
settled-exact [] r h = refl
settled-exact ((q, p) ∷ fs) r h =
    let one = notional-fits q p r.0.0 r.0.1 (omega arith) in
    let rest = settled-exact fs r.1 (omega arith) in
    let sum =
      add_exact (pos (q * p / qty_scale)) (pos (floor_total fs)) (omega arith) (omega arith) in
    rw (one, settled) (rw (rest, settled) (sum ∙ ground arith))

small_fills :
    (bound room : ℕ) (fs : Fills)
    → room ≤ max_int64
    → bound ≤ max_int64
    → InBound bound fs
    → filled_qty fs ≤ room
    → All (λ f. (f.0 ≤ max_int64) × (f.1 ≤ max_int64)) fs
small_fills bound room [] hr hb h s = tt
small_fills bound room ((q, p) ∷ fs) hr hb h s =
    ((omega arith, omega arith), small_fills bound room fs hr hb h.1 (omega arith))

-- The exact amount reserved: the notional rounded up, and the fee on it.
abbrev reserve : ℕ → ℕ → ℕ → ℕ
reserve q p f = ceil_div (q * p) qty_scale + ceil_div (ceil_div (q * p) qty_scale * f) bps_scale

ceil-some :
    (m : ℕ) (n : ℤ)
    → (if ltb max_int64 (ceil_div m qty_scale) then none else some (pos (ceil_div m qty_scale)))
      ≡ some n
    → (n ≡ pos (ceil_div m qty_scale)) × (ceil_div m qty_scale ≤ max_int64)
ceil-some m n h = elim (Bool-cases (ltb max_int64 (ceil_div m qty_scale))) [
  | inl big ↦ absurd (ground arith)
  | inr small ↦ (ground arith, ground arith)
]

-- A reservation that is granted is the checked sum of its two parts.
size_buy-some :
    (cfg : Config) (req : Request) (r : Reservation) (bound : ℤ)
    → size_buy cfg req bound ≡ some r
    → (n m : ℤ) × (notional_ceil req.qty bound ≡ some n)
      × (fee_bps n cfg.taker_fee_bps ≡ some m)
      × (add n m ≡ some r.amount)
unfolding size_buy
size_buy-some cfg req r bound h = elim (Option-cases (notional_ceil req.qty bound)) [
  | inl none_n ↦ absurd (ground arith)
  | inr (n, en) ↦ elim (Option-cases (fee_bps n cfg.taker_fee_bps)) [
    | inl none_m ↦ absurd (ground arith)
    | inr (m, em) ↦ elim (Option-cases (add n m)) [
      | inl none_t ↦ absurd (ground arith)
      | inr (t, et) ↦ (n, m, en, em, et ∙ ground arith)
    ]
  ]
]

-- The sum of two amounts that Add accepts.
add-some :
    (n m : ℕ) (t : ℤ)
    → n ≤ max_int64
    → m ≤ max_int64
    → add (pos n) (pos m) ≡ some t
    → (t ≡ pos (n + m)) × (n + m ≤ max_int64)
unfolding ◌+ℤ◌
add-some n m t hn hm h =
    let e = add_exact (pos n) (pos m) (hn, omega arith) (hm, omega arith) in ground arith

parts-exact :
    (q p f : ℕ) (n m t : ℤ)
    → q ≤ max_int64
    → p ≤ max_int64
    → f ≤ bps_scale
    → notional_ceil (pos q) (pos p) ≡ some n
    → fee_bps n (pos f) ≡ some m
    → add n m ≡ some t
    → (t ≡ pos (reserve q p f)) × (reserve q p f ≤ max_int64)
parts-exact q p f n m t hq hp hf en em et =
    let c = ceil_div (q * p) qty_scale in
    let (en', small) = ceil-some (q * p) n (sym (notional_ceil_exact q p hq hp) ∙ en) in
    let em' : fee_bps (pos c) (pos f) ≡ some m = subst (λ z. fee_bps z (pos f) ≡ some m) en' em in
    let m' : m ≡ pos (ceil_div (c * f) bps_scale) = cc (em', fee_bps_nonneg c f small hf) in
    add-some c (ceil_div (c * f) bps_scale) t small (le_trans (ceil_div-le c f hf) small) (
      subst (λ z. add z (pos (ceil_div (c * f) bps_scale)) ≡ some t) en'
        (subst (λ z. add n z ≡ some t) m' et))

size_buy-exact :
    (cfg : Config) (req : Request) (r : Reservation) (q p f : ℕ)
    → req.qty ≡ pos q
    → cfg.taker_fee_bps ≡ pos f
    → q ≤ max_int64
    → p ≤ max_int64
    → f ≤ bps_scale
    → size_buy cfg req (pos p) ≡ some r
    → (r.amount ≡ pos (reserve q p f)) × (reserve q p f ≤ max_int64)
size_buy-exact cfg req r q p f eq ef hq hp hf h =
    let (n, m, en, em, et) = size_buy-some cfg req r (pos p) h in
    parts-exact q p f n m r.amount hq hp hf (subst (λ z. notional_ceil z (pos p) ≡ some n) eq en)
      (subst (λ z. fee_bps n z ≡ some m) ef em) et

size_reservation-buy :
    (cfg : Config) (req : Request) (ref : ℤ) (bound : ℤ)
    → req.side ≡ Side.buy
    → price_bound cfg req ref ≡ some bound
    → size_reservation cfg req ref ≡ size_buy cfg req bound
unfolding size_reservation
size_reservation-buy cfg req ref bound es eb = ground arith

ceil_div_mono : (m n : ℕ) → m ≤ n → ceil_div m bps_scale ≤ ceil_div n bps_scale
ceil_div_mono m n h = ground arith

floor-le-ceil : (m n : ℕ) → m ≤ n → m / qty_scale ≤ ceil_div n qty_scale
floor-le-ceil m n h = ground arith

-- Take a buy order for which sizeReservation grants a reservation, with its quantity and its price
-- bound not negative and in an int64, and a taker fee of at most 100%. However it fills at prices
-- inside the bound, up to its own quantity and at any fee rate up to the taker's, the sum of the
-- notionals of its fills, and the fee on that sum, are computed without overflow and together are at
-- most the amount reserved.
pub reservation_covers :
    (cfg : Config) (req : Request) (ref : ℤ) (r : Reservation) (q p f g : ℕ) (fs : Fills)
    → req.side ≡ Side.buy
    → req.qty ≡ pos q
    → price_bound cfg req ref ≡ some (pos p)
    → cfg.taker_fee_bps ≡ pos f
    → q ≤ max_int64
    → p ≤ max_int64
    → f ≤ bps_scale
    → size_reservation cfg req ref ≡ some r
    → InBound p fs
    → filled_qty fs ≤ q
    → g ≤ f
    → (n fee : ℕ) × (settled fs ≡ some (pos n))
      × (fee_bps (pos n) (pos g) ≡ some (pos fee))
      × (pos (n + fee) ≤ℤ r.amount)
reservation_covers cfg req ref r q p f g fs es eq eb ef hq hp hf h inside total hg =
    let sized = sym (size_reservation-buy cfg req ref (pos p) es eb) ∙ h in
    let (amount, room) = size_buy-exact cfg req r q p f eq ef hq hp hf sized in
    let c = ceil_div (q * p) qty_scale in
    let n = floor_total fs in
    let most : filled_qty fs * p ≤ q * p = grind arith in
    let below : n ≤ c =
      le_trans (floor_total-le p fs inside) (floor-le-ceil (filled_qty fs * p) (q * p) most) in
    let rate : n * g ≤ c * f = grind arith in
    let fees = ceil_div_mono (n * g) (c * f) rate in
    let small : n ≤ max_int64 = omega arith in
    (
      n,
      ceil_div (n * g) bps_scale,
      settled-exact fs (small_fills p q fs hq hp inside total) small,
      fee_bps_nonneg n g small (le_trans hg hf),
      subst (λ z. pos (n + ceil_div (n * g) bps_scale) ≤ℤ z) (sym amount) (omega arith),
    )
