-- ===== src/Noise/Sealing.antt =====
-- The cipher of src/noise_protocol.rs seals wherever the primitive does.
use bitmancer.Prelude.{
  ℕ, ◌^◌, ◌≤◌, ◌≡◌, refl, true, Option, none, some, List, length, is_some, arith,
}
use bitmancer.Prelude.Results.{ok}
use bitmancer.Noise.{Aead, NoiseCipherState, add_u64, nonce_array, sealed, encrypt}

-- Sealing fails on no text of up to 2³² bytes.
abbrev pub Seals : Aead → Type 0
Seals aead =
    (key nonce aad plaintext : List ℕ)
    → length plaintext ≤ 2 ^ 32
    → is_some (aead.seal key nonce aad plaintext) ≡ true

is_some_value : {A : Type 0} (o : Option A) → is_some o ≡ true → (a : A) × (o ≡ some a)
is_some_value none h = cc
is_some_value (some a) h = (a, refl)

encrypt-sealed :
    (aead : Aead) (c : NoiseCipherState) (plaintext aad key text : List ℕ)
    → c.key ≡ some key
    → aead.seal key (nonce_array c.nonce) aad plaintext ≡ some text
    → encrypt aead c plaintext aad
      ≡ (record c { nonce = add_u64 c.nonce 1 }, ok (sealed aead c text))
unfolding encrypt
encrypt-sealed aead c plaintext aad key text keyed good = ground (arith, keyed, good)

pub encrypt_runs :
    (aead : Aead) (c : NoiseCipherState) (plaintext aad : List ℕ)
    → Seals aead
    → is_some c.key ≡ true
    → length plaintext ≤ 2 ^ 32
    → (c' : NoiseCipherState) × (bytes : List ℕ) × (encrypt aead c plaintext aad ≡ (c', ok bytes))
      × (c'.key ≡ c.key)
      × (c'.nonce ≡ add_u64 c.nonce 1)
encrypt_runs aead c plaintext aad seals h few =
    let (key, keyed) = is_some_value c.key h in
    let (text, good) =
      is_some_value (aead.seal key (nonce_array c.nonce) aad plaintext)
        (seals key (nonce_array c.nonce) aad plaintext few) in
    (
      record c { nonce = add_u64 c.nonce 1 },
      sealed aead c text,
      encrypt-sealed aead c plaintext aad key text keyed good,
      refl,
      refl,
    )
