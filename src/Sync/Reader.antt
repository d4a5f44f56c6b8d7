-- ===== src/Sync/Reader.antt =====
-- What the bit reader of src/sync/gcs.rs has left, and its steps.
use bitmancer.Prelude.{
  ℕ, zero, suc, ◌+◌, ◌-◌, ◌*◌, ◌/◌, ◌%◌, ◌≤◌, ◌<◌, ◌≡◌, refl, ◌∙◌, sym, ap, Bool, true, false,
  Option, none, some, is_some, List, [], ◌∷◌, ◌++◌, ltb, leb, ◌==◌, if◌then◌else◌, length, take,
  drop, get_elem?, arith, inl, inr, Bool-cases,
}
use bitmancer.Sync.Gcs.{BitReader, next_byte, advance, read_bit}
use bitmancer.Sync.Bits.{bits_of, flat_bits}

-- The bits left.
unfoldable pub remaining : BitReader → List Bool
unfolding bits_of flat_bits
remaining r =
    if ltb r.idx (length r.source)
    then take r.left (bits_of 8 r.cur) ++ flat_bits (drop (r.idx + 1) r.source)
    else []

pub record IsReader (r : BitReader) : Type 0 where
  pub some_left : r.idx < length r.source → (1 ≤ r.left) × (r.left ≤ 8)

pub take-snoc :
    (n : ℕ) (xs : List Bool) (z : Bool) → n ≤ length xs → take n (xs ++ (z ∷ [])) ≡ take n xs
take-snoc zero xs z h = refl
take-snoc (suc n) [] z h = absurd (omega (arith, h))
take-snoc (suc n) (x ∷ xs) z h = ap (λ ys. x ∷ ys) (take-snoc n xs z (omega (arith, h)))

pub bits_shift :
    (n v : ℕ)
    → n < 8
    → take (suc n) (bits_of 8 v) ≡ ((v / 128) % 2 == 1) ∷ take n (bits_of 8 (v * 2 % 256))
unfolding bits_of
bits_shift n v h =
    let e7 : (v * 2 % 256) / 128 % 2 ≡ v / 64 % 2 = omega arith in
    let e6 : (v * 2 % 256) / 64 % 2 ≡ v / 32 % 2 = omega arith in
    let e5 : (v * 2 % 256) / 32 % 2 ≡ v / 16 % 2 = omega arith in
    let e4 : (v * 2 % 256) / 16 % 2 ≡ v / 8 % 2 = omega arith in
    let e3 : (v * 2 % 256) / 8 % 2 ≡ v / 4 % 2 = omega arith in
    let e2 : (v * 2 % 256) / 4 % 2 ≡ v / 2 % 2 = omega arith in
    let e1 : (v * 2 % 256) / 2 % 2 ≡ v / 1 % 2 = omega arith in
    ap (λ bits. ((v / 128) % 2 == 1) ∷ bits)
      (rw (e7, e6, e5, e4, e3, e2, e1)
        (sym (
          take-snoc n
            ((v / 64 % 2 == 1)
              ∷ (v / 32 % 2 == 1)
              ∷ (v / 16 % 2 == 1)
              ∷ (v / 8 % 2 == 1)
              ∷ (v / 4 % 2 == 1)
              ∷ (v / 2 % 2 == 1)
              ∷ (v / 1 % 2 == 1)
              ∷ [])
            ((v * 2 % 256) / 1 % 2 == 1) (omega (arith, h)))))

-- The byte that is loaded next, and the bits behind it.
unfoldable pub bits_from : Option ℕ → ℕ → List ℕ → List Bool
unfolding bits_of flat_bits
bits_from none i bytes = []
bits_from (some b) i bytes = bits_of 8 b ++ flat_bits (drop (suc i) bytes)

pub drop_get :
    (i : ℕ) (bytes : List ℕ) → flat_bits (drop i bytes) ≡ bits_from (get_elem? bytes i) i bytes
unfolding flat_bits bits_from
drop_get zero [] = refl
drop_get zero (b ∷ bs) = refl
drop_get (suc i) [] = refl
drop_get (suc i) (b ∷ bs) = drop_get i bs ∙ later (get_elem? bs i) i b bs
  where
    later : (o : Option ℕ) (i b : ℕ) (bs : List ℕ) → bits_from o i bs ≡ bits_from o (suc i) (b ∷ bs)
    later none i b bs = refl
    later (some c) i b bs = refl

pub get_elem_lt : (i : ℕ) (bytes : List ℕ) → is_some (get_elem? bytes i) ≡ ltb i (length bytes)
get_elem_lt i [] = ground arith
get_elem_lt zero (b ∷ bs) = ground arith
get_elem_lt (suc i) (b ∷ bs) = get_elem_lt i bs ∙ ground arith

pub next_byte_lem :
    (o : Option ℕ) (r : BitReader)
    → get_elem? r.source (suc r.idx) ≡ o
    → r.left ≡ 0
    → IsReader (next_byte o r) × (remaining (next_byte o r) ≡ bits_from o (suc r.idx) r.source)
unfolding next_byte remaining bits_from
next_byte_lem none r e z =
    let over : ltb (r.idx + 1) (length r.source) ≡ false =
      ground (arith, get_elem_lt (suc r.idx) r.source, e) in
    (record { some_left = λ h. absurd (ground (arith, over, h)) }, rw over refl)
next_byte_lem (some b) r e z =
    let there : ltb (r.idx + 1) (length r.source) ≡ true =
      ground (arith, get_elem_lt (suc r.idx) r.source, e) in
    let place : r.idx + 1 + 1 ≡ suc (suc r.idx) = omega arith in
    (record { some_left = λ h. (omega arith, omega arith) }, rw (there, place) refl)

pub in_byte :
    (r : BitReader)
    → ltb r.idx (length r.source) ≡ true
    → remaining r ≡ take r.left (bits_of 8 r.cur) ++ flat_bits (drop (suc r.idx) r.source)
unfolding remaining
in_byte r inside = let place : r.idx + 1 ≡ suc r.idx = omega arith in rw (inside, place) refl

pub outside_empty : (r : BitReader) → ltb r.idx (length r.source) ≡ false → remaining r ≡ []
unfolding remaining
outside_empty r outside = rw outside refl

pub advance_lem :
    (r : BitReader)
    → ltb r.idx (length r.source) ≡ true
    → r.left ≤ 8
    → IsReader (advance r)
      × (remaining (advance r)
          ≡ take r.left (bits_of 8 r.cur) ++ flat_bits (drop (suc r.idx) r.source))
unfolding advance remaining
advance_lem r inside le = elim (Bool-cases (r.left == 0)) [
  | inl none_left ↦
      let zero_left : r.left ≡ 0 = ground (arith, none_left) in
      let (well, same) = next_byte_lem (get_elem? r.source (suc r.idx)) r refl zero_left in
      let place : r.idx + 1 ≡ suc r.idx = omega arith in
      rw (none_left, place)
        (
          well,
          same
              ∙ sym (drop_get (suc r.idx) r.source)
              ∙ ap (λ n. take n (bits_of 8 r.cur) ++ flat_bits (drop (suc r.idx) r.source))
                  (sym zero_left),
        )
  | inr more ↦ rw more (record { some_left = λ h. (ground (arith, more), le) }, in_byte r inside)
]

pub read_bit_inside :
    (r : BitReader)
    → ltb r.idx (length r.source) ≡ true
    → read_bit r
      ≡ some (
        (r.cur / 128) % 2 == 1,
        advance (record r { cur = (r.cur * 2) % 256; left = r.left - 1 }),
      )
unfolding read_bit
read_bit_inside r inside =
    let within : leb (length r.source) r.idx ≡ false = ground (arith, inside) in rw within refl
