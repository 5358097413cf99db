-- ===== src/Engine/Replay/Format/Roundtrip.antt =====
-- The bytes of a snapshot, read back: internal/engine/replay.go.
use mathlib.Core.List.{append_assoc, append-nil}
use trade_execution_operatin.Common.{
  ℕ, ◌≤◌, ◌≡◌, refl, sym, ap, ◌∙◌, List, [], ◌∷◌, ◌++◌, arith, Bool, true, ◌||◌, Bool-cases, inl,
  inr, if◌then◌else◌, length, All, All-map,
}
use trade_execution_operatin.Common.Int.{pos}
use trade_execution_operatin.Common.Int64.{IsInt64, max_int64}
use trade_execution_operatin.Common.NameMap.{NameMap, put, find}
use trade_execution_operatin.Common.Names.{name_eq, name_eq_sound}
use trade_execution_operatin.Book.{Name}
use trade_execution_operatin.Engine.Position.{PositionState}
use trade_execution_operatin.Engine.Replay.{ReplayState, position_of, no_position}
use trade_execution_operatin.Engine.Replay.Same.{Same, position_of-put}
use trade_execution_operatin.Engine.Replay.Format.Symbols.{
  is_in, is_in-sort, length-sort, length-held, All-sort, All-held, All-position_of, unheld,
}
use trade_execution_operatin.Engine.Replay.Format.{
  write, snapshot_version, max_symbol, held, sort, write_position, write_positions, encode,
  DecodeError, decoded, read_positions, decode_state,
}
use trade_execution_operatin.Engine.Replay.Format.Bytes.{
  read_or-write, FitsPosition, read_position-write,
}

or_true : (b : Bool) → (b || true) ≡ true
or_true b = ground arith

-- The entries, as the loop stores them.
stored : List Name → NameMap PositionState → NameMap PositionState → NameMap PositionState
stored [] ps m = m
stored (name ∷ syms) ps m = stored syms ps (put name (position_of name ps) m)

module _ (ps : NameMap PositionState) where
  abbrev Writable : Name → Type 0
  Writable sym = (length sym ≤ max_symbol) × FitsPosition (position_of sym ps)

  read_positions-write :
      (syms : List Name) (m : NameMap PositionState) (rest : List ℕ)
      → All Writable syms
      → read_positions (length syms) m (write_positions syms ps ++ rest)
        ≡ decoded (stored syms ps m, rest)
  unfolding read_positions write_positions stored
  read_positions-write [] m rest h = refl
  read_positions-write (name ∷ syms) m rest h =
      let p = position_of name ps in
      rw
        (
          append_assoc (write_position name p) (write_positions syms ps) rest,
          read_position-write m name p (write_positions syms ps ++ rest) h.0.0 h.0.1,
        )
        (read_positions-write syms (put name p m) rest h.1)

  position_of-stored :
      (syms : List Name) (m : NameMap PositionState) (x : Name)
      → position_of x (stored syms ps m)
        ≡ (if is_in x syms then position_of x ps else position_of x m)
  unfolding stored
  position_of-stored [] m x = refl
  position_of-stored (name ∷ syms) m x =
      position_of-stored syms (put name (position_of name ps) m) x
      ∙ elim (Bool-cases (is_in x syms)) [
        | inl later ↦ rw (later, or_true (name_eq x name)) refl
        | inr e ↦ elim (Bool-cases (name_eq x name)) [
          | inl here ↦
              rw (e, position_of-put x name (position_of name ps) m, here)
                (ap (λ k. position_of k ps) (sym (name_eq_sound x name here)))
          | inr away ↦ rw (e, position_of-put x name (position_of name ps) m, away) refl
        ]
      ]

-- What Encode can write so that DecodeState accepts it: numbers of 64 bits, and symbols of at most
-- 64 bytes.
pub record IsEncodable (s : ReplayState) : Type 0 where
  pub seq : IsInt64 s.seq
  pub cash : IsInt64 s.cash
  pub fees : IsInt64 s.fees
  pub clearing : IsInt64 s.clearing
  pub symbols : All (λ (e : Name × PositionState). length e.0 ≤ max_symbol) s.positions
  pub positions : All (λ (e : Name × PositionState). FitsPosition e.1) s.positions
  pub count : length s.positions ≤ max_int64

zero-FitsPosition : FitsPosition no_position
zero-FitsPosition = let z : IsInt64 (pos 0) = (omega arith, omega arith) in (z, (z, z))

written_symbols : ReplayState → List Name
written_symbols s = sort (held s.positions)

decoded_state : ReplayState → ReplayState
decoded_state s = record s { positions = stored (written_symbols s) s.positions [] }

written-Writable :
    (s : ReplayState) → IsEncodable s → All (Writable s.positions) (written_symbols s)
unfolding written_symbols
written-Writable s h =
    All-map (written_symbols s)
      (λ x short. (short, All-position_of FitsPosition x s.positions zero-FitsPosition h.positions))
      (All-sort (λ x. length x ≤ max_symbol) (held s.positions)
        (All-held (λ x. length x ≤ max_symbol) s.positions h.symbols))

written_count : (s : ReplayState) → IsEncodable s → IsInt64 (pos (length (written_symbols s)))
unfolding written_symbols
written_count s h = omega (arith, length-sort (held s.positions), length-held s.positions, h.count)

encoded_fields :
    (s : ReplayState)
    → encode s
      ≡ write snapshot_version
        ++ (write s.seq
            ++ (write s.cash
                ++ (write s.fees
                    ++ (write s.clearing
                        ++ (write (pos (length (written_symbols s)))
                            ++ (write_positions (written_symbols s) s.positions ++ []))))))
unfolding encode written_symbols
encoded_fields s = simp (append_assoc, append-nil)

decode_state_exact :
    (s : ReplayState) → IsEncodable s → decode_state (encode s) ≡ decoded (decoded_state s)
unfolding decode_state decoded_state
decode_state_exact s h =
    let syms = written_symbols s in
    let entries = write_positions syms s.positions ++ [] in
    let n = write (pos (length syms)) ++ entries in
    let clearing = write s.clearing ++ n in
    let fees = write s.fees ++ clearing in
    let cash = write s.cash ++ fees in
    let version_fits : IsInt64 snapshot_version = (omega arith, omega arith) in
    ap decode_state (encoded_fields s)
    ∙ rw
        (
          read_or-write DecodeError.truncated snapshot_version (write s.seq ++ cash) version_fits,
          read_or-write DecodeError.truncated s.seq cash h.seq,
          read_or-write DecodeError.truncated s.cash fees h.cash,
          read_or-write DecodeError.truncated s.fees clearing h.fees,
          read_or-write DecodeError.truncated s.clearing n h.clearing,
          read_or-write DecodeError.truncated (pos (length syms)) entries (written_count s h),
          read_positions-write s.positions syms [] [] (written-Writable s h),
          decode_state,
        )
        refl

decoded_state-Same : (s : ReplayState) → Same (decoded_state s) s
unfolding decoded_state written_symbols find
decoded_state-Same s = record {
  seq = refl;
  cash = refl;
  fees = refl;
  clearing = refl;
  positions = λ x.
      position_of-stored s.positions (sort (held s.positions)) [] x
      ∙ elim (Bool-cases (is_in x (held s.positions))) [
        | inl e ↦ rw (is_in-sort x (held s.positions), e) refl
        | inr e ↦ rw (is_in-sort x (held s.positions), e) (sym (unheld x s.positions e))
      ];
}

-- DecodeState reads back what Encode wrote: the same sequence number and sums, and the same position
-- for each symbol, where the numbers fit in 64 bits and no symbol is longer than 64 bytes.
pub decode_state-encode :
    (s : ReplayState)
    → IsEncodable s
    → (s' : ReplayState) × ((decode_state (encode s) ≡ decoded s') × Same s' s)
decode_state-encode s h = (decoded_state s, (decode_state_exact s h, decoded_state-Same s))
