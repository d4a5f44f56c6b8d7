-- ===== src/Sync/Reading.antt =====
-- What the reader of src/sync/gcs.rs has left, and that it reads back what the writer wrote.
use bitmancer.Prelude.{
  ℕ, zero, suc, ◌+◌, ◌-◌, ◌*◌, ◌/◌, ◌%◌, ◌^◌, ◌≤◌, ◌<◌, ◌≡◌, refl, ◌∙◌, sym, ap, Bool, true, false,
  some, List, [], ◌∷◌, ◌++◌, ltb, ◌==◌, length, take, drop, replicate, append_assoc, arith, inl,
  inr, Bool-cases,
}
use bitmancer.Sync.Gcs.{
  bit_value, BitReader, new_reader, advance, read_bit, read_unary, read_bits, read_delta, delta_of,
}
use bitmancer.Sync.Bits.{bits_of, flat_bits, delta_bits}
use native.Mathlib.Nat.{
  pow-suc, pow-le-pow_right, mod-eq_of_lt, mod-lt, div-add-mod', mul-add, add-mul, mul_assoc,
  mul_comm, div-add-mod, div-div-eq-div-mul,
}
use bitmancer.Sync.Reader.{
  remaining, IsReader, bits_shift, in_byte, outside_empty, advance_lem, read_bit_inside,
}

carry :
    (start w d r e t v u : ℕ)
    → u ≡ w * 2
    → e ≡ d / 2
    → w * d + r ≡ v
    → u * e + t ≡ v
    → (start * 2 + d % 2) * w + r ≡ start * u + t
carry start w d r e t v u hu he hd ht =
    let x = d % 2 in
    let split : d ≡ e * 2 + x = omega (arith, he) in
    let product : w * d ≡ w * e * 2 + w * x =
      ap (λ y. w * y) split ∙ mul-add w (e * 2) x ∙ ap (λ y. y + w * x) (sym (mul_assoc w e 2)) in
    let scaled : start * 2 * w ≡ start * w * 2 =
      mul_assoc start 2 w ∙ ap (λ y. start * y) (mul_comm 2 w) ∙ sym (mul_assoc start w 2) in
    let left : (start * 2 + x) * w ≡ start * w * 2 + w * x =
      add-mul (start * 2) x w ∙ rw scaled (ap (λ y. start * w * 2 + y) (mul_comm x w)) in
    let right : start * u ≡ start * w * 2 = ap (λ y. start * y) hu ∙ sym (mul_assoc start w 2) in
    let whole : u * e ≡ w * e * 2 =
      ap (λ y. y * e) hu
      ∙ mul_assoc w 2 e
      ∙ ap (λ y. w * y) (mul_comm 2 e)
      ∙ sym (mul_assoc w e 2) in
    omega (arith, left, right, whole, product, hd, ht)

one_bit_more :
    (start v p : ℕ)
    → (start * 2 + bit_value ((v / 2 ^ p) % 2 == 1)) * 2 ^ p + v % 2 ^ p
      ≡ start * 2 ^ suc p + v % 2 ^ suc p
one_bit_more start v p =
    let bit : bit_value ((v / 2 ^ p) % 2 == 1) ≡ (v / 2 ^ p) % 2 = ground arith in
    let power : 2 ^ suc p ≡ 2 ^ p * 2 = pow-suc 2 p in
    let half : v / 2 ^ suc p ≡ v / 2 ^ p / 2 =
      ap (λ x. v / x) power ∙ sym (div-div-eq-div-mul v (2 ^ p) 2) in
    rw bit (
      carry start (2 ^ p) (v / 2 ^ p) (v % 2 ^ p) (v / 2 ^ suc p) (v % 2 ^ suc p) v (2 ^ suc p)
        power half (div-add-mod v (2 ^ p)) (div-add-mod v (2 ^ suc p)))

-- The next bit comes out, and the others stay.
pub read_bit_lem :
    (r : BitReader) (b : Bool) (bits : List Bool)
    → IsReader r
    → remaining r ≡ b ∷ bits
    → (after : BitReader) × (read_bit r ≡ some (b, after))
      × IsReader after
      × (remaining after ≡ bits)
read_bit_lem r b bits h e = elim (Bool-cases (ltb r.idx (length r.source))) [
  | inr outside ↦ absurd (cc (outside_empty r outside, e))
  | inl inside ↦
      let (least, most) = h.some_left (ground (arith, inside)) in
      let shifted : BitReader = record r { cur = (r.cur * 2) % 256; left = r.left - 1 } in
      let rest =
        take (r.left - 1) (bits_of 8 ((r.cur * 2) % 256))
        ++ flat_bits (drop (suc r.idx) r.source) in
      let (well, same) = advance_lem shifted inside (omega (arith, most)) in
      let enough : r.left ≡ suc (r.left - 1) = omega (arith, least) in
      let split : ((r.cur / 128) % 2 == 1) ∷ rest ≡ b ∷ bits =
        ap (λ xs. xs ++ flat_bits (drop (suc r.idx) r.source))
          (sym (bits_shift (r.left - 1) r.cur (omega (arith, least, most)))
            ∙ ap (λ n. take n (bits_of 8 r.cur)) (sym enough))
        ∙ sym (in_byte r inside)
        ∙ e in
      (
        advance shifted,
        read_bit_inside r inside ∙ ap (λ x. some (x, advance shifted)) (cc split),
        well,
        same ∙ cc split,
      )
]

pub read_unary_lem :
    (q fuel start : ℕ) (r : BitReader) (bits : List Bool)
    → IsReader r
    → remaining r ≡ replicate q true ++ (false ∷ bits)
    → q < fuel
    → (after : BitReader) × (read_unary fuel start r ≡ some (start + q, after))
      × IsReader after
      × (remaining after ≡ bits)
unfolding read_unary
read_unary_lem q zero start r bits h e lt = absurd (omega (arith, lt))
read_unary_lem zero (suc fuel) start r bits h e lt =
    let (after, step, well, same) = read_bit_lem r false bits h e in
    let sum : start ≡ start + 0 = omega arith in
    (after, rw (read_unary, step) (ap (λ n. some (n, after)) sum), well, same)
read_unary_lem (suc q) (suc fuel) start r bits h e lt =
    let (next, step, well, same) = read_bit_lem r true (replicate q true ++ (false ∷ bits)) h e in
    let (after, steps, well', same') =
      read_unary_lem q fuel (start + 1) next bits well same (omega (arith, lt)) in
    let sum : start + 1 + q ≡ start + suc q = omega arith in
    (after, rw (read_unary, step) (steps ∙ ap (λ n. some (n, after)) sum), well', same')

pub read_bits_lem :
    (p v start : ℕ) (r : BitReader) (bits : List Bool)
    → IsReader r
    → remaining r ≡ bits_of p v ++ bits
    → (after : BitReader) × (read_bits p start r ≡ some (start * 2 ^ p + v % 2 ^ p, after))
      × IsReader after
      × (remaining after ≡ bits)
unfolding read_bits bits_of
read_bits_lem zero v start r bits h e =
    let sum : start ≡ start * 1 + v % 1 = omega arith in (r, ap (λ n. some (n, r)) sum, h, e)
read_bits_lem (suc p) v start r bits h e =
    let (next, step, well, same) =
      read_bit_lem r ((v / 2 ^ p) % 2 == 1) (bits_of p v ++ bits) h e in
    let (after, steps, well', same') =
      read_bits_lem p v (start * 2 + bit_value ((v / 2 ^ p) % 2 == 1)) next bits well same in
    (
      after,
      rw (read_bits, step) (steps ∙ ap (λ n. some (n, after)) (one_bit_more start v p)),
      well',
      same',
    )

delta_back :
    (p x : ℕ)
    → 1 ≤ x
    → x < 2 ^ 63
    → delta_of p (0 + (x - 1) / 2 ^ p) (0 * 2 ^ p + (x - 1) % 2 ^ p % 2 ^ p) ≡ x
delta_back p x pos small =
    let two : 0 < 2 = omega arith in
    let least : 2 ^ 0 ≤ 2 ^ p = pow-le-pow_right two {i = 0} {j = p} (omega arith) in
    let power : 0 < 2 ^ p = omega (arith, least) in
    let inner : (x - 1) % 2 ^ p % 2 ^ p ≡ (x - 1) % 2 ^ p = mod-eq_of_lt (mod-lt (x - 1) power) in
    let start : 0 + (x - 1) / 2 ^ p ≡ (x - 1) / 2 ^ p = omega arith in
    rw (inner, start) (omega (arith, div-add-mod' (x - 1) (2 ^ p), pos, small))

-- A delta is read back from its bits, and the bits behind it stay.
pub read_delta_lem :
    (fuel p x : ℕ) (r : BitReader) (bits : List Bool)
    → 1 ≤ x
    → x < 2 ^ 63
    → (x - 1) / 2 ^ p < fuel
    → IsReader r
    → remaining r ≡ delta_bits x p ++ bits
    → (after : BitReader) × (read_delta fuel p r ≡ some (x, after))
      × IsReader after
      × (remaining after ≡ bits)
unfolding read_delta delta_bits
read_delta_lem fuel p x r bits pos small lt h e =
    let q = (x - 1) / 2 ^ p in
    let v = (x - 1) % 2 ^ p in
    let (next, step, well, same) =
      read_unary_lem q fuel 0 r (bits_of p v ++ bits) h
        (e ∙ append_assoc (replicate q true) (false ∷ bits_of p v) bits) lt in
    let (after, steps, well', same') = read_bits_lem p v 0 next bits well same in
    (
      after,
      rw (read_delta, step) (rw steps (ap (λ y. some (y, after)) (delta_back p x pos small))),
      well',
      same',
    )

pub new_reader_lem :
    (bytes : List ℕ)
    → IsReader (new_reader bytes) × (remaining (new_reader bytes) ≡ flat_bits bytes)
unfolding new_reader remaining flat_bits
new_reader_lem [] = (record { some_left = λ h. absurd (omega (arith, h)) }, refl)
new_reader_lem (b ∷ bs) =
    let inside : ltb 0 (suc (length bs)) ≡ true = ground arith in
    (record { some_left = λ h. (omega arith, omega arith) }, rw inside refl)
