-- ===== src/Engine/Reservation/Settle.antt =====
-- settleReservation of internal/engine/outcomes.go on its row: when the table's CHECK lets a fill
-- through, and what the row then holds.
use mathlib.Core.Path.{ap₂}
use trade_execution_operatin.Common.{
  ℕ, ◌+◌, ◌-◌, ◌≤◌, ◌<◌, ◌≡◌, ◌∙◌, Bool, if◌then◌else◌, arith, ltb,
}
use trade_execution_operatin.Common.Int.{ℤ, pos, negsuc, pos_part, ◌+ℤ◌, ◌-ℤ◌}
use trade_execution_operatin.Common.Int64.{max_int64, wrap64, sub64}
use trade_execution_operatin.Money.{Minor, Qty}
use trade_execution_operatin.Engine.Db.{ReservationRow, Db, ok, err, reservation_check}
use trade_execution_operatin.Engine.Reservation.{clamp, surplus, fill_cost, update_row, settle_row}

-- The release is the surplus, held between zero and the headroom.
abbrev pub release_of : ℕ → ℤ → ℕ
release_of headroom s = if ltb headroom (pos_part s) then headroom else pos_part s

clamp_nonneg : (h : ℕ) (s : ℤ) → clamp (pos h) s ≡ pos (release_of h s)
clamp_nonneg h s = ground arith

release_of-le : (h : ℕ) (s : ℤ) → release_of h s ≤ h
release_of-le h s = ground arith

sub64-nonneg : (a b : ℕ) → b ≤ a → a ≤ max_int64 → sub64 (pos a) (pos b) ≡ pos (a - b)
unfolding wrap64 ◌-ℤ◌
sub64-nonneg a b h k = ground arith

sub64-negative : (a b : ℕ) → a < b → b ≤ max_int64 → sub64 (pos a) (pos b) ≡ negsuc (b - a - 1)
unfolding wrap64 ◌-ℤ◌
sub64-negative a b h k = ground arith

clamp_negative : (k : ℕ) (s : ℤ) → clamp (negsuc k) s ≡ pos 0
clamp_negative k s = ground arith

+ℤ-nonneg : (a b : ℕ) → pos a +ℤ pos b ≡ pos (a + b)
unfolding ◌+ℤ◌
+ℤ-nonneg a b = ground arith

module _ (r : ReservationRow) (total used back cost : ℕ) (db : Db) (er : r.reserved ≡ pos total)
    (ec : r.consumed ≡ pos used) (ed : r.released ≡ pos back) (inside : used + back ≤ total)
    (fits : total ≤ max_int64) (small : cost ≤ max_int64) where
  update_row_accepts :
      (c d : ℕ)
      → c + d ≤ total
      → update_row r (pos c) (pos d) db ≡ ok (record r { consumed = pos c; released = pos d }, db)
  unfolding update_row ◌+ℤ◌
  update_row_accepts c d h = ground arith

  update_row_refuses :
      (c d : ℕ)
      → c ≤ max_int64
      → d ≤ max_int64
      → total < c + d
      → update_row r (pos c) (pos d) db ≡ err reservation_check
  unfolding update_row ◌+ℤ◌
  update_row_refuses c d hc hd h = ground arith

  module _ (buying : Bool) (prior_qty fill_qty : Qty) (notional fee : Minor)
      (spends : fill_cost buying fill_qty notional fee ≡ pos cost) where
    -- The surplus before the clamp, at this cost.
    abbrev pub extra : ℤ
    extra = surplus buying r.unit_price r.fee_bps prior_qty fill_qty (pos cost)

    left_over : sub64 (sub64 r.reserved r.consumed) r.released ≡ pos (total - used - back)
    left_over =
        rw (er, ec, ed, sub64-nonneg total used (omega arith) fits)
          (sub64-nonneg (total - used) back (omega arith) (omega arith))

    settle_row_clamped :
        (release : ℕ)
        → clamp (sub64 (pos (total - used - back)) (pos cost)) extra ≡ pos release
        → settle_row r buying prior_qty fill_qty notional fee db
          ≡ update_row r (pos (used + cost)) (pos (back + release)) db
    unfolding settle_row update_row
    settle_row_clamped release e =
        rw (spends, left_over, e, ec, ed)
          (ap₂ (λ c d. update_row r c d db) (+ℤ-nonneg used cost) (+ℤ-nonneg back release))

    -- On a row within its total, a fill whose cost fits in the headroom settles: its cost is consumed in
    -- full, the surplus held between zero and the rest of the headroom is released, and the two never
    -- exceed the total.
    pub settle_row_fits :
        used + back + cost ≤ total
        → let released = release_of (total - used - back - cost) extra in
          (settle_row r buying prior_qty fill_qty notional fee db
            ≡ ok (record r { consumed = pos (used + cost); released = pos (back + released) }, db))
          × (used + cost + (back + released) ≤ total)
    settle_row_fits h =
        let head = total - used - back - cost in
        let bound = release_of-le head extra in
        let within : used + cost + (back + release_of head extra) ≤ total = omega (arith, bound) in
        (
          settle_row_clamped (release_of head extra) (
                rw (sub64-nonneg (total - used - back) cost (omega arith) (omega arith))
                  (clamp_nonneg head extra))
              ∙ update_row_accepts (used + cost) (back + release_of head extra) within,
          within,
        )

    -- On a row within its total, a fill whose cost exceeds the headroom, with the sum consumed still an
    -- int64, is refused by the CHECK of the table, which is an error of the transaction.
    pub settle_row_refused :
        total < used + back + cost
        → used + cost ≤ max_int64
        → settle_row r buying prior_qty fill_qty notional fee db ≡ err reservation_check
    settle_row_refused h k =
        settle_row_clamped 0 (
          rw (sub64-negative (total - used - back) cost (omega arith) small)
            (clamp_negative (cost - (total - used - back) - 1) extra))
        ∙ update_row_refuses (used + cost) (back + 0) k (omega arith) (omega arith)
