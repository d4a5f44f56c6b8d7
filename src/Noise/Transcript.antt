-- ===== src/Noise/Transcript.antt =====
-- The two symmetric states of a handshake (src/noise_protocol.rs) stay equal: what one seals, the
-- other opens, and both hash the same transcript.
use bitmancer.Prelude.{
  ℕ, ◌+◌, ◌≡◌, refl, ◌∙◌, true, false, some, List, [], ◌∷◌, inl, inr, if◌then◌else◌, length, arith,
  Bool-cases, Option-cases,
}
use bitmancer.Prelude.Results.{Result, ok, err}
use bitmancer.Noise.{
  NoiseError, Aead, NoiseCipherState, nonce_array, sealed, encrypt, decrypt, open_at,
}
use bitmancer.Noise.Delivery.{IsAead}
use bitmancer.Noise.PublicKey.{validate_public_key}
use bitmancer.Noise.Symmetric.{
  Primitives, NoiseSymmetricState, mix_hash, has_cipher_key, encrypt_and_hash, decrypt_and_hash,
}

-- What the code relies on: opening undoes sealing, a tag has 16 bytes, the public key of a secret is
-- not of low order, and both sides of an exchange compute the same secret.
pub record IsPrimitives (crypto : Primitives) : Type 0 where
  pub opens : IsAead crypto.aead
  pub tag :
      (key nonce aad plaintext ciphertext : List ℕ)
      → crypto.aead.seal key nonce aad plaintext ≡ some ciphertext
      → length ciphertext ≡ length plaintext + 16
  pub valid :
      (secret : List ℕ)
      → validate_public_key (crypto.public_key secret) ≡ ok (crypto.public_key secret)
  pub commutes :
      (a b : List ℕ)
      → crypto.diffie_hellman a (crypto.public_key b)
        ≡ crypto.diffie_hellman b (crypto.public_key a)

-- What a cipher with a counter of its own seals, one in the same state opens, and both move on.
pub decrypt-encrypt :
    (aead : Aead) (c c' : NoiseCipherState) (plaintext aad ciphertext : List ℕ)
    → IsAead aead
    → c.use_extracted_nonce ≡ false
    → encrypt aead c plaintext aad ≡ (c', ok ciphertext)
    → decrypt aead c ciphertext aad ≡ (c', ok plaintext)
unfolding encrypt decrypt open_at sealed nonce_array
decrypt-encrypt aead c c' plaintext aad ciphertext law mode sent = elim (Option-cases c.key) [
  | inl bare ↦ absurd (ground (arith, bare, sent))
  | inr (key, keyed) ↦ elim (Option-cases (aead.seal key (nonce_array c.nonce) aad plaintext)) [
    | inl bad ↦ absurd (ground (arith, keyed, bad, sent))
    | inr (text, good) ↦
        ground
          (arith, keyed, mode, good, sent, law key (nonce_array c.nonce) aad plaintext text good)
  ]
]

encrypt_kept :
    (aead : Aead) (c c' : NoiseCipherState) (plaintext aad ciphertext : List ℕ)
    → encrypt aead c plaintext aad ≡ (c', ok ciphertext)
    → (c'.use_extracted_nonce ≡ c.use_extracted_nonce) × (c'.key ≡ c.key)
unfolding encrypt
encrypt_kept aead c c' plaintext aad ciphertext sent = ground (arith, sent, Option-cases c.key)

module _ (crypto : Primitives) (law : IsPrimitives crypto) where
  length-encrypt :
      (c c' : NoiseCipherState) (plaintext aad ciphertext : List ℕ)
      → c.use_extracted_nonce ≡ false
      → encrypt crypto.aead c plaintext aad ≡ (c', ok ciphertext)
      → length ciphertext ≡ length plaintext + 16
  unfolding encrypt sealed nonce_array
  length-encrypt c c' plaintext aad ciphertext mode sent = elim (Option-cases c.key) [
    | inl bare ↦ absurd (ground (arith, bare, sent))
    | inr (key, keyed) ↦
        elim (Option-cases (crypto.aead.seal key (nonce_array c.nonce) aad plaintext)) [
          | inl bad ↦ absurd (ground (arith, keyed, bad, sent))
          | inr (text, good) ↦ ground (
            arith,
            keyed,
            mode,
            good,
            sent,
            law.tag key (nonce_array c.nonce) aad plaintext text good,
          )
        ]
  ]

  -- What `encrypt_and_hash` yields when it succeeds.
  pub record IsSealed (plaintext ciphertext : List ℕ) (state state' : NoiseSymmetricState)
      : Type 0 where
    pub opened : decrypt_and_hash crypto ciphertext state ≡ (state', ok plaintext)
    pub size :
        length ciphertext
        ≡ (if has_cipher_key crypto state then length plaintext + 16 else length plaintext)
    pub internal : state'.cipher_state.use_extracted_nonce ≡ false

  IsSealed-keyed :
      (plaintext ciphertext : List ℕ) (state : NoiseSymmetricState) (c' : NoiseCipherState)
      → state.cipher_state.use_extracted_nonce ≡ false
      → has_cipher_key crypto state ≡ true
      → encrypt crypto.aead state.cipher_state plaintext state.hash ≡ (c', ok ciphertext)
      → IsSealed plaintext ciphertext state
          (mix_hash crypto ciphertext (record state { cipher_state = c' }))
  IsSealed-keyed plaintext [] state c' mode keyed sent =
      absurd (omega (arith, length-encrypt state.cipher_state c' plaintext state.hash [] mode sent))
  IsSealed-keyed plaintext (b ∷ bs) state c' mode keyed sent = record {
    opened =
        unfold decrypt_and_hash in
        ground (
          arith,
          keyed,
          decrypt-encrypt crypto.aead state.cipher_state c' plaintext state.hash (b ∷ bs) law.opens
              mode sent,
        );
    size = ground (
      arith,
      keyed,
      length-encrypt state.cipher_state c' plaintext state.hash (b ∷ bs) mode sent,
    );
    internal =
        unfold mix_hash in
        (encrypt_kept crypto.aead state.cipher_state c' plaintext state.hash (b ∷ bs) sent).0
        ∙ mode;
  }

  pub encrypt_and_hash-IsSealed :
      (plaintext ciphertext : List ℕ) (state state' : NoiseSymmetricState)
      → state.cipher_state.use_extracted_nonce ≡ false
      → encrypt_and_hash crypto plaintext state ≡ (state', ok ciphertext)
      → IsSealed plaintext ciphertext state state'
  encrypt_and_hash-IsSealed plaintext ciphertext state state' mode sent =
      elim (Bool-cases (has_cipher_key crypto state)) [
        | inl keyed ↦
            split (encrypt crypto.aead state.cipher_state plaintext state.hash).0
              (encrypt crypto.aead state.cipher_state plaintext state.hash).1 refl keyed
        | inr bare ↦
            let same : mix_hash crypto plaintext state ≡ state' =
              unfold encrypt_and_hash in ground (arith, bare, sent) in
            let text : plaintext ≡ ciphertext =
              unfold encrypt_and_hash in ground (arith, bare, sent) in
            rw (← same, ← text)
              (record {
                opened = unfold decrypt_and_hash in ground (arith, bare);
                size = ground (arith, bare);
                internal = unfold mix_hash in mode;
              })
      ]
    where
      split :
          (c' : NoiseCipherState) (reply : Result NoiseError (List ℕ))
          → encrypt crypto.aead state.cipher_state plaintext state.hash ≡ (c', reply)
          → has_cipher_key crypto state ≡ true
          → IsSealed plaintext ciphertext state state'
      split c' (err bad) ran keyed =
          absurd (unfold encrypt_and_hash in ground (arith, keyed, ran, sent))
      split c' (ok text) ran keyed =
          let same : mix_hash crypto text (record state { cipher_state = c' }) ≡ state' =
            unfold encrypt_and_hash in ground (arith, keyed, ran, sent) in
          let same_text : text ≡ ciphertext =
            unfold encrypt_and_hash in ground (arith, keyed, ran, sent) in
          rw (← same, ← same_text) (IsSealed-keyed plaintext text state c' mode keyed ran)
