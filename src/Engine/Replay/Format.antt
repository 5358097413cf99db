-- ===== src/Engine/Replay/Format.antt =====
-- internal/engine/replay.go: the bytes of a snapshot, Encode and DecodeState.
-- A Go map is ranged over in the order of its list here; the sort makes the order irrelevant.
pub mod Bytes
pub mod Canonical
pub mod Roundtrip
pub mod Symbols
use trade_execution_operatin.Common.{
  ℕ, zero, suc, ◌+◌, ◌-◌, ◌*◌, ◌/◌, ◌%◌, Bool, not, ◌&&◌, ◌||◌, Option, none, some, List, [], ◌∷◌,
  ◌++◌, leb, ◌==◌, if◌then◌else◌, length, take, drop, replicate,
}
use trade_execution_operatin.Common.Int.{ℤ, pos, eqb_ℤ, ltb_ℤ, pos_part}
use trade_execution_operatin.Common.Int64.{to_u64, of_u64}
use trade_execution_operatin.Common.NameMap.{NameMap, put}
use trade_execution_operatin.Common.Names.{name_ltb}
use trade_execution_operatin.Money.{Minor}
use trade_execution_operatin.Book.{Name}
use trade_execution_operatin.Engine.Position.{PositionState}
use trade_execution_operatin.Engine.Replay.{ReplayState, position_of, new_replay_state}

-- The `n` low bytes of a word, the lowest first.
abbrev pub digits : ℕ → ℕ → List ℕ
digits zero w = []
digits (suc n) w = w % 256 ∷ digits n (w / 256)

abbrev pub reversed : List ℕ → List ℕ → List ℕ
reversed [] acc = acc
reversed (b ∷ bs) acc = reversed bs (b ∷ acc)

-- write: binary.BigEndian.PutUint64 of uint64(v).
unfoldable pub write : ℤ → List ℕ
write v = reversed (digits 8 (to_u64 v)) []

-- read: binary.Read of a uint64, and int64 of it; fewer than eight bytes are an error.
unfoldable pub read : List ℕ → Option (ℤ × List ℕ)
read (a ∷ b ∷ c ∷ d ∷ e ∷ f ∷ g ∷ h ∷ rest) = some (
  of_u64 (h + 256 * (g + 256 * (f + 256 * (e + 256 * (d + 256 * (c + 256 * (b + 256 * a))))))),
  rest,
)
read _ = none

abbrev pub snapshot_version : ℤ
snapshot_version = pos 1

abbrev pub is_empty : PositionState → Bool
is_empty p = (eqb_ℤ p.qty (pos 0) && eqb_ℤ p.basis (pos 0)) && eqb_ℤ p.realized (pos 0)

-- The symbols of the positions that are not empty.
unfoldable pub held : NameMap PositionState → List Name
held [] = []
held (e ∷ m) = let rest = held m in if is_empty e.1 then rest else e.0 ∷ rest

-- sort.Strings
unfoldable pub insert_sorted : Name → List Name → List Name
insert_sorted x [] = x ∷ []
insert_sorted x (y ∷ ys) =
    let later = insert_sorted x ys in if name_ltb y x then y ∷ later else x ∷ y ∷ ys

unfoldable pub sort : List Name → List Name
sort [] = []
sort (x ∷ xs) = insert_sorted x (sort xs)

unfoldable pub write_position : Name → PositionState → List ℕ
write_position sym p =
    write (pos (length sym)) ++ sym ++ write p.qty ++ write p.basis ++ write p.realized

unfoldable pub write_positions : List Name → NameMap PositionState → List ℕ
write_positions [] m = []
write_positions (sym ∷ syms) m = write_position sym (position_of sym m) ++ write_positions syms m

-- Encode
unfoldable pub encode : ReplayState → List ℕ
encode s =
    let syms = sort (held s.positions) in
    write snapshot_version
    ++ write s.seq
    ++ write s.cash
    ++ write s.fees
    ++ write s.clearing
    ++ write (pos (length syms))
    ++ write_positions syms s.positions

pub data DecodeError : Type 0 where
  truncated bad_version bad_symbol_length truncated_in_symbol : DecodeError

pub data Decoded (A : Type 0) : Type 0 where
  decoded : A → Decoded A
  refused : DecodeError → Decoded A

infixl 5 ◌>>=◌
abbrev pub ◌>>=◌ : {A B : Type 0} → Decoded A → (A → Decoded B) → Decoded B
decoded a >>= f = f a
refused e >>= f = refused e

unfoldable pub read_or : DecodeError → List ℕ → Decoded (ℤ × List ℕ)
read_or e buf = elim (read buf) [ none ↦ refused e | some r ↦ decoded r ]

-- r.Read(name) into a fresh buffer: io.EOF only if nothing is left; a short read leaves zeros.
unfoldable pub read_name : ℕ → List ℕ → Decoded (Name × List ℕ)
read_name n [] = refused truncated_in_symbol
read_name n (b ∷ buf) =
    decoded (take n (b ∷ buf) ++ replicate (n - length (b ∷ buf)) 0, drop n (b ∷ buf))

abbrev pub max_symbol : ℕ
max_symbol = 64

-- One round of the loop.
unfoldable pub read_position :
    NameMap PositionState → List ℕ → Decoded (NameMap PositionState × List ℕ)
read_position m buf = do
  len ← read_or bad_symbol_length buf
  if ltb_ℤ len.0 (pos 0) || ltb_ℤ (pos max_symbol) len.0 then refused bad_symbol_length else do
    name ← read_name (pos_part len.0) len.1
    qty ← read_or truncated name.1
    basis ← read_or truncated qty.1
    realized ← read_or truncated basis.1
    decoded
        (put name.0 (record { qty = qty.0; basis = basis.0; realized = realized.0 }) m, realized.1)

-- for i := int64(0); i < n; i++
unfoldable pub read_positions :
    ℕ → NameMap PositionState → List ℕ → Decoded (NameMap PositionState × List ℕ)
read_positions zero m buf = decoded (m, buf)
read_positions (suc n) m buf = read_position m buf >>= λ r. read_positions n r.0 r.1

-- DecodeState. The bytes after the last entry are not looked at.
unfoldable pub decode_state : List ℕ → Decoded ReplayState
decode_state buf = do
  version ← read_or truncated buf
  if not (eqb_ℤ version.0 snapshot_version) then refused bad_version else do
    seq ← read_or truncated version.1
    cash ← read_or truncated seq.1
    fees ← read_or truncated cash.1
    clearing ← read_or truncated fees.1
    n ← read_or truncated clearing.1
    entries ← read_positions (pos_part n.0) new_replay_state.positions n.1
    decoded (record {
      seq = seq.0;
      cash = cash.0;
      fees = fees.0;
      clearing = clearing.0;
      positions = entries.0;
    })
