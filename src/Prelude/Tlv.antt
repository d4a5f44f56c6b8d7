-- ===== src/Prelude/Tlv.antt =====
-- Fields of a tag, a big-endian length in two bytes, and a value, one after the other. The fuel of
-- the reader is the number of bytes, of which each turn takes three at least.
use Prim.Native.Nat.{ℕ, zero, suc, ◌%◌, ◌^◌, ◌≤◌, ◌<◌}
use mathlib.Core.Path.{◌≡◌, refl, ◌∙◌}
use mathlib.Core.Bool.{false}
use mathlib.Core.Logic.{inl, inr}
use mathlib.Core.List.{List, [], ◌∷◌, ◌++◌, append_assoc}
use mathlib.Core.Option.{Option, none, some}
use native.Mathlib.Omega.{arith}
use bitmancer.Prelude.Tests.{if◌then◌else◌, ltb, ◌>>=◌, Option-cases}
use bitmancer.Prelude.Lists.{
  length, take, drop, length-append, length-drop, take-append_length, drop-append_length,
  take-append_of_eq, drop-append_of_eq,
}
use bitmancer.Prelude.Bytes.{
  to_be_bytes, from_be_bytes, length-to_be_bytes, from_be_bytes-to_be_bytes,
}

-- `push_tlv`: the length is cut to 16 bits.
unfoldable pub push_tlv : ℕ → List ℕ → List ℕ
push_tlv tag value = tag ∷ (to_be_bytes 2 (length value % 2 ^ 16) ++ value)

module _ {S : Type 0} (field : ℕ → List ℕ → S → Option S) where
  unfoldable pub read_tlv : ℕ → List ℕ → S → Option S
  read_tlv zero [] state = some state
  read_tlv zero (b ∷ bs) state = none
  read_tlv (suc fuel) [] state = some state
  read_tlv (suc fuel) (tag ∷ rest) state =
      let size = from_be_bytes (take 2 rest) in
      if ltb (length rest) 2
      then none
      else if ltb (length (drop 2 rest)) size
      then none
      else field tag (take size (drop 2 rest)) state >>= read_tlv fuel (drop size (drop 2 rest))

  unfoldable pub read_all : List ℕ → S → Option S
  unfolding read_tlv
  read_all bytes state = read_tlv (length bytes) bytes state

  enough_fuel :
      (f g : ℕ) (bytes : List ℕ) (state : S)
      → length bytes ≤ f
      → length bytes ≤ g
      → read_tlv f bytes state ≡ read_tlv g bytes state
  unfolding read_tlv
  enough_fuel zero zero [] state p q = refl
  enough_fuel zero (suc g) [] state p q = refl
  enough_fuel (suc f) zero [] state p q = refl
  enough_fuel (suc f) (suc g) [] state p q = refl
  enough_fuel zero g (b ∷ bs) state p q = absurd (omega arith)
  enough_fuel (suc f) zero (b ∷ bs) state p q = absurd (omega arith)
  enough_fuel (suc f) (suc g) (tag ∷ rest) state p q =
      let size = from_be_bytes (take 2 rest) in
      let same = λ (after : S).
        enough_fuel f g (drop size (drop 2 rest)) after
          (omega (arith, length-drop 2 rest, length-drop size (drop 2 rest)))
          (omega (arith, length-drop 2 rest, length-drop size (drop 2 rest))) in
      elim (Option-cases (field tag (take size (drop 2 rest)) state)) [
        | inl bad ↦ rw bad refl
        | inr (after, good) ↦ rw good (ground (arith, same after))
      ]

  -- A field that was pushed is read, and the rest after it.
  pub read_all-push_tlv :
      (tag : ℕ) (value rest : List ℕ) (state after : S)
      → length value < 2 ^ 16
      → field tag value state ≡ some after
      → read_all (push_tlv tag value ++ rest) state ≡ read_all rest after
  unfolding read_all read_tlv push_tlv
  read_all-push_tlv tag value rest state after small good =
      let n : ℕ = length value % 2 ^ 16 in
      let shape : (to_be_bytes 2 n ++ value) ++ rest ≡ to_be_bytes 2 n ++ (value ++ rest) =
        append_assoc (to_be_bytes 2 n) value rest in
      let width = length-to_be_bytes 2 n in
      let front : take 2 (to_be_bytes 2 n ++ (value ++ rest)) ≡ to_be_bytes 2 n =
        take-append_of_eq 2 (to_be_bytes 2 n) (value ++ rest) width in
      let back : drop 2 (to_be_bytes 2 n ++ (value ++ rest)) ≡ value ++ rest =
        drop-append_of_eq 2 (to_be_bytes 2 n) (value ++ rest) width in
      let number : from_be_bytes (to_be_bytes 2 n) ≡ length value =
        from_be_bytes-to_be_bytes 2 n (omega arith) ∙ omega arith in
      let long : ltb (length (to_be_bytes 2 n ++ (value ++ rest))) 2 ≡ false =
        ground (arith, length-append (to_be_bytes 2 n) (value ++ rest), width) in
      let fits : ltb (length (value ++ rest)) (length value) ≡ false =
        ground (arith, length-append value rest) in
      rw (shape, long, front, back, number)
        (rw (fits, take-append_length value rest, drop-append_length value rest, good)
          (enough_fuel (length (to_be_bytes 2 n ++ (value ++ rest))) (length rest) rest after
            (omega
              (arith, length-append (to_be_bytes 2 n) (value ++ rest), length-append value rest))
            (omega arith)))
