-- ===== src/Sync/Decoded.antt =====
-- What the decoder of src/sync/gcs.rs finds is sorted, whatever bytes it is given.
use bitmancer.Prelude.{
  ℕ, zero, suc, ◌+◌, ◌*◌, ◌%◌, ◌^◌, ◌≤◌, ◌<◌, ◌≡◌, ap, Bool, true, false, some, List, leb, ltb,
  ◌&&◌, length, inl, inr, arith, Bool-cases, Option-cases,
}
use native.Mathlib.Nat.{pow-suc, pow-le-pow_right, mul-le-mul_left}
use bitmancer.Sync.Gcs.{
  BitReader, new_reader, read_bit, bit_value, read_unary, read_bits, read_delta, delta_of,
  decode_values, push_value, decode_to_sorted_set, max_p,
}
use bitmancer.Sync.Filter.{IsIncreasing}

-- The quotient is less than the number of turns that were left.
read_unary_bound :
    (fuel q q' : ℕ) (r rest : BitReader) → read_unary fuel q r ≡ some (q', rest) → q' < q + fuel
unfolding read_unary
read_unary_bound zero q q' r rest h = cc
read_unary_bound (suc fuel) q q' r rest h = elim (Option-cases (read_bit r)) [
  | inl end ↦ absurd (ground (arith, end, h))
  | inr ((bit, more), got) ↦ elim (Bool-cases bit) [
    | inl one ↦
        omega (arith, read_unary_bound fuel (q + 1) q' more rest (ground (arith, got, one, h)))
    | inr stop ↦ ground (arith, got, stop, h)
  ]
]

doubled :
    (value count : ℕ) (bit : Bool)
    → (value * 2 + bit_value bit + 1) * 2 ^ count ≤ (value + 1) * 2 ^ suc count
doubled value count true = omega (arith, ap (λ t. (value + 1) * t) (pow-suc 2 count))
doubled value count false = omega (arith, ap (λ t. (value + 1) * t) (pow-suc 2 count))

-- A number that is read bit by bit has no more bits than were read.
read_bits_bound :
    (count value value' : ℕ) (r rest : BitReader)
    → read_bits count value r ≡ some (value', rest)
    → value' < (value + 1) * 2 ^ count
unfolding read_bits
read_bits_bound zero value value' r rest h = ground (arith, h)
read_bits_bound (suc count) value value' r rest h = elim (Option-cases (read_bit r)) [
  | inl end ↦ absurd (ground (arith, end, h))
  | inr ((bit, more), got) ↦
      let next : read_bits count (value * 2 + bit_value bit) more ≡ some (value', rest) =
        ground (arith, got, h) in
      let bound = read_bits_bound count (value * 2 + bit_value bit) value' more rest next in
      omega (arith, bound, doubled value count bit)
]

delta_bound :
    (p q r : ℕ) → p ≤ 32 → q < 2 ^ 24 → r < 2 ^ p → (1 ≤ delta_of p q r) × (delta_of p q r ≤ 2 ^ 60)
delta_bound p q r few small rest =
    let power : 2 ^ p ≤ 2 ^ 32 = pow-le-pow_right {n = 2} (omega arith) few in
    let product : q * 2 ^ p ≤ q * 2 ^ 32 = mul-le-mul_left q power in
    (omega (arith), omega (arith, power, product, small, rest))

read_delta_bound :
    (fuel p x : ℕ) (reader after : BitReader)
    → fuel ≤ 2 ^ 24
    → p ≤ 32
    → read_delta fuel p reader ≡ some (x, after)
    → (1 ≤ x) × (x ≤ 2 ^ 60)
unfolding read_delta
read_delta_bound fuel p x reader after short few h =
    elim (Option-cases (read_unary fuel 0 reader)) [
      | inl end ↦ absurd (ground (arith, end, h))
      | inr ((q, rest), ones) ↦ elim (Option-cases (read_bits p 0 rest)) [
        | inl end ↦ absurd (ground (arith, ones, end, h))
        | inr ((r, more), bits) ↦
            let found : delta_of p q r ≡ x = ground (arith, ones, bits, h) in
            let q_small : q < 2 ^ 24 =
              omega (arith, read_unary_bound fuel 0 q reader rest ones, short) in
            let r_small : r < 2 ^ p = omega (arith, read_bits_bound p 0 r rest more bits) in
            rw (← found) (delta_bound p q r few q_small r_small)
      ]
    ]

push_value-IsIncreasing :
    (m acc x : ℕ) (after : BitReader) (continue : ℕ → BitReader → List ℕ)
    → m ≤ 2 ^ 32
    → acc < 2 ^ 32
    → 1 ≤ x
    → x ≤ 2 ^ 60
    → ((next : ℕ) → next < 2 ^ 32 → IsIncreasing next m (continue next after))
    → IsIncreasing acc m (push_value m acc (some (x, after)) continue)
push_value-IsIncreasing m acc x after continue narrow low positive small k =
    let sum : (acc + x) % 2 ^ 64 ≡ acc + x = omega (arith, low, small) in
    rw sum (elim (Bool-cases (leb m (acc + x))) [
      | inl past ↦ rw past tt
      | inr inside ↦
          let below : acc + x < m = ground (arith, inside) in
          rw inside (omega (arith, positive), below, k (acc + x) (omega (arith, below, narrow)))
    ])

decode_values-IsIncreasing :
    (fuel p m acc : ℕ) (r : BitReader)
    → fuel ≤ 2 ^ 24
    → p ≤ 32
    → m ≤ 2 ^ 32
    → acc < 2 ^ 32
    → IsIncreasing acc m (decode_values fuel p m acc r)
unfolding decode_values
decode_values-IsIncreasing zero p m acc r short few narrow low = tt
decode_values-IsIncreasing (suc fuel) p m acc r short few narrow low =
    elim (Option-cases (read_delta (suc fuel) p r)) [
      | inl end ↦ rw (decode_values, end) tt
      | inr ((x, after), got) ↦
          let (positive, small) = read_delta_bound (suc fuel) p x r after short few got in
          rw (decode_values, got)
            (push_value-IsIncreasing m acc x after (λ next rest. decode_values fuel p m next rest)
              narrow low positive small
              (λ next fits.
                decode_values-IsIncreasing fuel p m next after (omega (arith, short)) few narrow
                  fits))
    ]

-- With a 32-bit modulus and at most 2²⁰ bytes: whatever the bytes and the parameter, what the decoder
-- finds strictly increases, from 1 on, and is below the modulus, as the binary search of a membership
-- test needs it.
pub decode_to_sorted_set-IsIncreasing :
    (p m : ℕ) (bytes : List ℕ)
    → m < 2 ^ 32
    → length bytes ≤ 2 ^ 20
    → IsIncreasing 0 m (decode_to_sorted_set p m bytes)
unfolding decode_to_sorted_set
decode_to_sorted_set-IsIncreasing p m bytes narrow short =
    elim (Bool-cases (leb 1 p && leb p max_p && ltb 1 m)) [
      | inr bad ↦ rw bad tt
      | inl good ↦ rw good (
          decode_values-IsIncreasing (length bytes * 8 + 1) p m 0 (new_reader bytes)
            (omega (arith, short)) (ground (arith, good)) (omega (arith, narrow)) (omega arith))
    ]
