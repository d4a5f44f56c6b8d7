-- ===== src/Noise/PublicKey.antt =====
-- The check of a public key that a peer sends (src/noise_protocol.rs).
use bitmancer.Prelude.{
  ℕ, false, not, List, [], ◌∷◌, ◌++◌, bit_and, ◌==◌, if◌then◌else◌, length, replicate, take, drop,
  any, map, ◌≡◌, refl, inl, inr, arith, Bool-cases,
}
use bitmancer.Prelude.Keys.{bytes_eq}
use bitmancer.Prelude.Sets.{contains}
use bitmancer.Prelude.Results.{Result, ok, err}
use bitmancer.Noise.{NoiseError, invalid_public_key}

-- The encodings of `p - 1`, `p` and `p + 1` differ in their first byte.
abbrev near_prime : ℕ → List ℕ
near_prime low = low ∷ (replicate 30 0xff ++ (0x7f ∷ []))

abbrev pub low_order_points : List (List ℕ)
low_order_points =
    replicate 32 0
    ∷ (1 ∷ replicate 31 0)
    ∷ (0xe0 ∷ 0xeb ∷ 0x7a ∷ 0x7c ∷ 0x3b ∷ 0x41 ∷ 0xb8 ∷ 0xae ∷ 0x16 ∷ 0x56 ∷ 0xe3 ∷ 0xfa ∷ 0xf1
        ∷ 0x9f ∷ 0xc4 ∷ 0x6a ∷ 0xda ∷ 0x09 ∷ 0x8d ∷ 0xeb ∷ 0x9c ∷ 0x32 ∷ 0xb1 ∷ 0xfd ∷ 0x86 ∷ 0x62
        ∷ 0x05 ∷ 0x16 ∷ 0x5f ∷ 0x49 ∷ 0xb8 ∷ 0x00 ∷ [])
    ∷ (0x5f ∷ 0x9c ∷ 0x95 ∷ 0xbc ∷ 0xa3 ∷ 0x50 ∷ 0x8c ∷ 0x24 ∷ 0xb1 ∷ 0xd0 ∷ 0xb1 ∷ 0x55 ∷ 0x9c
        ∷ 0x83 ∷ 0xef ∷ 0x5b ∷ 0x04 ∷ 0x44 ∷ 0x5c ∷ 0xc4 ∷ 0x58 ∷ 0x1c ∷ 0x8e ∷ 0x86 ∷ 0xd8 ∷ 0x22
        ∷ 0x4e ∷ 0xdd ∷ 0xd0 ∷ 0x9f ∷ 0x11 ∷ 0x57 ∷ [])
    ∷ near_prime 0xec
    ∷ near_prime 0xed
    ∷ near_prime 0xee
    ∷ []

-- A copy with bit 255 masked off.
unfoldable pub canonical : List ℕ → List ℕ
canonical received = take 31 received ++ map (λ b. bit_and b 0x7f) (drop 31 received)

-- The key is built from the bytes as they arrived.
unfoldable pub validate_public_key : List ℕ → Result NoiseError (List ℕ)
unfolding canonical contains
validate_public_key received =
    if not (length received == 32)
    then err invalid_public_key
    else if not (any (λ b. not (b == 0)) (canonical received))
    then err invalid_public_key
    else if contains low_order_points (canonical received)
    then err invalid_public_key
    else ok received

wrong_length :
    (key : List ℕ) → (length key == 32) ≡ false → validate_public_key key ≡ err invalid_public_key
unfolding validate_public_key
wrong_length key apart = rw apart refl

pub validate_public_key-length :
    (key key' : List ℕ) → validate_public_key key ≡ ok key' → length key ≡ 32
validate_public_key-length key key' h = elim (Bool-cases (length key == 32)) [
  | inl fits ↦ ground (arith, fits)
  | inr apart ↦ cc (wrong_length key apart, h)
]
