-- ===== src/Engine/Replay/Format/Bytes.antt =====
-- The fields of a snapshot, read back: internal/engine/replay.go.
use mathlib.Core.Path.{subst}
use mathlib.Core.List.{append_assoc, append-nil}
use trade_execution_operatin.Common.{
  ℕ, suc, ◌+◌, ◌-◌, ◌*◌, ◌/◌, ◌%◌, ◌<◌, ◌≤◌, ◌≡◌, refl, sym, ap, ◌∙◌, List, [], ◌∷◌, ◌++◌, arith,
  some, false, ◌||◌, length, take, drop, length-append,
}
use trade_execution_operatin.Common.Int.{ℤ, pos, ltb_ℤ}
use trade_execution_operatin.Common.Int64.{IsInt64, to_u64, of_u64, word}
use trade_execution_operatin.Common.NameMap.{NameMap, put}
use trade_execution_operatin.Book.{Name}
use trade_execution_operatin.Engine.Position.{PositionState}
use trade_execution_operatin.Engine.Replay.Format.{
  write, read, max_symbol, write_position, DecodeError, decoded, read_or, read_name, read_position,
}

word_digits :
    (w : ℕ)
    → w < word
    → w % 256
        + 256
          * (w / 256 % 256
              + 256
                * (w / 256 / 256 % 256
                    + 256
                      * (w / 256 / 256 / 256 % 256
                          + 256
                            * (w / 256 / 256 / 256 / 256 % 256
                                + 256
                                  * (w / 256 / 256 / 256 / 256 / 256 % 256
                                      + 256
                                        * (w / 256 / 256 / 256 / 256 / 256 / 256 % 256
                                            + 256
                                              * (w / 256 / 256 / 256 / 256 / 256 / 256 / 256
                                                  % 256)))))))
      ≡ w
word_digits w h = omega arith

of_u64-to_u64 : (v : ℤ) → IsInt64 v → of_u64 (to_u64 v) ≡ v
unfolding to_u64 of_u64
of_u64-to_u64 v h = ground arith

to_u64-lt : (v : ℤ) → to_u64 v < word
unfolding to_u64
to_u64-lt v = ground arith

read-write : (v : ℤ) (rest : List ℕ) → IsInt64 v → read (write v ++ rest) ≡ some (v, rest)
unfolding read write
read-write v rest h = rw (word_digits (to_u64 v) (to_u64-lt v), of_u64-to_u64 v h) refl

pub read_or-write :
    (e : DecodeError) (v : ℤ) (rest : List ℕ)
    → IsInt64 v
    → read_or e (write v ++ rest) ≡ decoded (v, rest)
unfolding read_or
read_or-write e v rest h = rw (read-write v rest h, read_or) refl

take_front : (xs ys : List ℕ) → take (length xs) (xs ++ ys) ≡ xs
take_front [] ys = refl
take_front (x ∷ xs) ys = ap (λ l. x ∷ l) (take_front xs ys)

drop_front : (xs ys : List ℕ) → drop (length xs) (xs ++ ys) ≡ ys
drop_front [] ys = refl
drop_front (x ∷ xs) ys = drop_front xs ys

read_name-append :
    (name : Name) (b : ℕ) (rest : List ℕ)
    → read_name (length name) (name ++ b ∷ rest) ≡ decoded (name, b ∷ rest)
unfolding read_name
read_name-append [] b rest = let z : 0 - suc (length rest) ≡ 0 = omega arith in rw z refl
read_name-append (a ∷ name) b rest =
    let none_left : suc (length name) - suc (length (name ++ b ∷ rest)) ≡ 0 =
      omega (arith, length-append name (b ∷ rest)) in
    rw (none_left, take_front name (b ∷ rest), drop_front name (b ∷ rest), append-nil name) refl

write_starts : (v : ℤ) → (b : ℕ) × ((t : List ℕ) × (write v ≡ b ∷ t))
unfolding write
write_starts v = (_, (_, refl))

read_name-write :
    (name : Name) (v : ℤ) (rest : List ℕ)
    → read_name (length name) (name ++ (write v ++ rest)) ≡ decoded (name, write v ++ rest)
read_name-write name v rest =
    let (b, (t, e)) = write_starts v in
    subst (λ x. read_name (length name) (name ++ (x ++ rest)) ≡ decoded (name, x ++ rest)) (sym e)
      (read_name-append name b (t ++ rest))

abbrev pub FitsPosition : PositionState → Type 0
FitsPosition p = IsInt64 p.qty × (IsInt64 p.basis × IsInt64 p.realized)

regroup :
    (name : Name) (p : PositionState) (rest : List ℕ)
    → write_position name p ++ rest
      ≡ write (pos (length name))
        ++ (name ++ (write p.qty ++ (write p.basis ++ (write p.realized ++ rest))))
unfolding write_position
regroup name p rest = simp append_assoc

pub read_position-write :
    (m : NameMap PositionState) (name : Name) (p : PositionState) (rest : List ℕ)
    → length name ≤ max_symbol
    → FitsPosition p
    → read_position m (write_position name p ++ rest) ≡ decoded (put name p m, rest)
unfolding read_position write_position
read_position-write m name p rest short fits =
    let len_fits : IsInt64 (pos (length name)) = (omega arith, omega arith) in
    let in_range : (ltb_ℤ (pos (length name)) (pos 0) || ltb_ℤ (pos max_symbol) (pos (length name)))
        ≡ false =
      ground arith in
    let realized = write p.realized ++ rest in
    let basis = write p.basis ++ realized in
    let qty = write p.qty ++ basis in
    ap (read_position m) (regroup name p rest)
    ∙ rw
        (
          read_or-write DecodeError.bad_symbol_length (pos (length name)) (name ++ qty) len_fits,
          in_range,
          read_name-write name p.qty basis,
          read_or-write DecodeError.truncated p.qty basis fits.0,
          read_or-write DecodeError.truncated p.basis realized fits.1.0,
          read_or-write DecodeError.truncated p.realized rest fits.1.1,
          read_position,
        )
        refl
