-- ===== src/Book/Submit/Ring.antt =====
-- The dedup ring of internal/book/book.go: how long an id is remembered.
use native.Mathlib.Nat.{mod_self, mod-eq_of_lt}
use trade_execution_operatin.Common.{
  ℕ, zero, suc, ◌+◌, ◌%◌, ◌<◌, ◌≤◌, ◌≡◌, refl, ap, ◌∙◌, false, List, [], ◌∷◌, ◌==◌, arith,
  Bool-cases, inl, inr, leb, if◌then◌else◌, length, get_or, set,
}

-- The slots of the ring from `j` on, for `k` of them, do not hold the id.
unfoldable pub IsClear : ℕ → List ℕ → ℕ → ℕ → ℕ → Type 0
IsClear limit ring j id zero = Unit
IsClear limit ring j id (suc k) =
    ((get_or ring j 0 == id) ≡ false) × IsClear limit ring ((j + 1) % limit) id k

pub IsClear-fewer :
    (limit : ℕ) (ring : List ℕ) (j id k : ℕ)
    → IsClear limit ring j id (suc k)
    → IsClear limit ring j id k
unfolding IsClear
IsClear-fewer limit ring j id zero h = tt
IsClear-fewer limit ring j id (suc k) h = (h.0, IsClear-fewer limit ring ((j + 1) % limit) id k h.1)

get_or-set :
    (ring : List ℕ) (i x j id : ℕ)
    → (x == id) ≡ false
    → (get_or ring j 0 == id) ≡ false
    → (get_or (set ring i x) j 0 == id) ≡ false
get_or-set [] i x j id hx h = h
get_or-set (y ∷ ring) zero x zero id hx h = hx
get_or-set (y ∷ ring) zero x (suc j) id hx h = h
get_or-set (y ∷ ring) (suc i) x zero id hx h = h
get_or-set (y ∷ ring) (suc i) x (suc j) id hx h = get_or-set ring i x j id hx h

get_or-set_other :
    (ring : List ℕ) (i x j : ℕ) → (i == j) ≡ false → get_or (set ring i x) j 0 ≡ get_or ring j 0
get_or-set_other [] i x j h = refl
get_or-set_other (y ∷ ring) zero x zero h = cc
get_or-set_other (y ∷ ring) zero x (suc j) h = refl
get_or-set_other (y ∷ ring) (suc i) x zero h = refl
get_or-set_other (y ∷ ring) (suc i) x (suc j) h = get_or-set_other ring i x j (ground arith)

-- Writing another id keeps the slots clear.
pub set-IsClear :
    (limit : ℕ) (ring : List ℕ) (i x j id k : ℕ)
    → (x == id) ≡ false
    → IsClear limit ring j id k
    → IsClear limit (set ring i x) j id k
unfolding IsClear
set-IsClear limit ring i x j id zero hx h = tt
set-IsClear limit ring i x j id (suc k) hx h =
    (get_or-set ring i x j id hx h.0, set-IsClear limit ring i x ((j + 1) % limit) id k hx h.1)

pub next_slot : (j limit : ℕ) → j < limit → (j + 1) % limit ≡ (if j + 1 == limit then 0 else j + 1)
next_slot j limit h = elim (Bool-cases (j + 1 == limit)) [
  | inl last ↦
      let e : j + 1 ≡ limit = ground arith in rw last (ap (λ n. n % limit) e ∙ mod_self limit)
  | inr more ↦ rw more (mod-eq_of_lt (ground arith))
]

unfoldable pub count : ℕ → List ℕ → ℕ
count z [] = 0
count z (x ∷ xs) = (if z == x then 1 else 0) + count z xs

get_or-absent :
    (ring : List ℕ) (j id : ℕ)
    → (id == 0) ≡ false
    → count id ring ≡ 0
    → (get_or ring j 0 == id) ≡ false
unfolding count
get_or-absent [] j id nil h = ground arith
get_or-absent (x ∷ ring) zero id nil h = ground arith
get_or-absent (x ∷ ring) (suc j) id nil h = get_or-absent ring j id nil (ground arith)

pub count-set :
    (z : ℕ) (ring : List ℕ) (j x : ℕ)
    → j < length ring
    → count z (set ring j x) + (if z == get_or ring j 0 then 1 else 0)
      ≡ count z ring + (if z == x then 1 else 0)
unfolding count
count-set z [] j x h = absurd (omega arith)
count-set z (y ∷ ring) zero x h = omega arith
count-set z (y ∷ ring) (suc j) x h = ground (arith, count-set z ring j x (omega arith))

-- Once the id is written into a slot, all the others are clear.
pub written-IsClear :
    (ring : List ℕ) (i id j k limit : ℕ)
    → i < limit
    → j < limit
    → (id == 0) ≡ false
    → count id ring ≡ 0
    → j + k ≤ (if leb j i then i else i + limit)
    → IsClear limit (set ring i id) j id k
unfolding IsClear
written-IsClear ring i id j zero limit hi hj nil h d = tt
written-IsClear ring i id j (suc k) limit hi hj nil h d =
    let other : (i == j) ≡ false = ground arith in
    (
      rw (get_or-set_other ring i id j other) (get_or-absent ring j id nil h),
      rw (next_slot j limit hj) (
          written-IsClear ring i id (if j + 1 == limit then 0 else j + 1) k limit hi (ground arith)
            nil h (ground arith)),
    )
