-- ===== src/Noise/Symmetric.antt =====
-- The symmetric state of a handshake (src/noise_protocol.rs): the chaining key, the hash of the
-- transcript, and the cipher of the handshake. SHA-256, HMAC and X25519 are parameters.
use bitmancer.Prelude.{
  ℕ, zero, suc, ◌+◌, ◌-◌, ◌%◌, Bool, true, List, [], ◌∷◌, ◌++◌, leb, if◌then◌else◌, length,
  replicate,
}
use bitmancer.Prelude.Results.{Result, ok, err}
use bitmancer.Noise.{
  NoiseError, Aead, NoiseCipherState, new, new_with_key, initialize_key, has_key, encrypt, decrypt,
}

-- What the code takes from its cryptographic libraries. A secret and a public key are arrays.
pub record Primitives : Type 0 where
  pub aead : Aead
  pub sha256 : List ℕ → List ℕ
  pub hmac : List ℕ → List ℕ → List ℕ
  pub public_key : List ℕ → List ℕ
  pub diffie_hellman : List ℕ → List ℕ → List ℕ

pub data NoisePattern : Type 0 where
  xx ik nk x : NoisePattern

abbrev pub pattern_name : NoisePattern → List ℕ
pattern_name xx = b'X' ∷ b'X' ∷ []
pattern_name ik = b'I' ∷ b'K' ∷ []
pattern_name nk = b'N' ∷ b'K' ∷ []
pattern_name x = b'X' ∷ []

-- The bytes of `Noise_{pattern}_25519_ChaChaPoly_SHA256`.
unfoldable pub full_name : NoisePattern → List ℕ
full_name pattern =
    b'N'
    ∷ b'o'
    ∷ b'i'
    ∷ b's'
    ∷ b'e'
    ∷ b'_'
    ∷ (pattern_name pattern
        ++ (b'_' ∷ b'2' ∷ b'5' ∷ b'5' ∷ b'1' ∷ b'9' ∷ b'_' ∷ b'C' ∷ b'h' ∷ b'a' ∷ b'C' ∷ b'h' ∷ b'a'
            ∷ b'P' ∷ b'o' ∷ b'l' ∷ b'y' ∷ b'_' ∷ b'S' ∷ b'H' ∷ b'A' ∷ b'2' ∷ b'5' ∷ b'6' ∷ []))

pub record NoiseSymmetricState : Type 0 where
  pub cipher_state : NoiseCipherState
  pub chaining_key : List ℕ
  pub hash : List ℕ

module _ (crypto : Primitives) where
  unfoldable pub new_symmetric : List ℕ → NoiseSymmetricState
  new_symmetric name =
      let hash =
        if leb (length name) 32
        then name ++ replicate (32 - length name) 0
        else crypto.sha256 name in
      record { cipher_state = new; chaining_key = hash; hash = hash }

  unfoldable pub mix_hash : List ℕ → NoiseSymmetricState → NoiseSymmetricState
  mix_hash bytes s = record s { hash = crypto.sha256 (s.hash ++ bytes) }

  -- The loop of `hkdf`: `n` outputs to go, the next with the number `i`.
  unfoldable pub hkdf_outputs : List ℕ → List ℕ → ℕ → ℕ → List (List ℕ)
  hkdf_outputs temp_key current_output i zero = []
  hkdf_outputs temp_key current_output i (suc n) =
      let output = crypto.hmac temp_key (current_output ++ (i % 256 ∷ [])) in
      output ∷ hkdf_outputs temp_key output (i + 1) n

  unfoldable pub hkdf : List ℕ → List ℕ → ℕ → List (List ℕ)
  unfolding hkdf_outputs
  hkdf chaining_key input_key_material num_outputs =
      hkdf_outputs (crypto.hmac chaining_key input_key_material) [] 1 num_outputs

  -- `output[i]`, which is within bounds wherever it is read.
  abbrev pub output_at : List (List ℕ) → ℕ → List ℕ
  output_at [] i = []
  output_at (o ∷ os) zero = o
  output_at (o ∷ os) (suc i) = output_at os i

  unfoldable pub mix_key : List ℕ → NoiseSymmetricState → NoiseSymmetricState
  unfolding hkdf
  mix_key input_key_material s =
      let output = hkdf s.chaining_key input_key_material 2 in
      record s {
        chaining_key = output_at output 0;
        cipher_state = initialize_key s.cipher_state (output_at output 1);
      }

  unfoldable pub mix_key_and_hash : List ℕ → NoiseSymmetricState → NoiseSymmetricState
  unfolding hkdf mix_hash
  mix_key_and_hash input_key_material s =
      let output = hkdf s.chaining_key input_key_material 3 in
      let mixed = mix_hash (output_at output 1) (record s { chaining_key = output_at output 0 }) in
      record mixed { cipher_state = initialize_key mixed.cipher_state (output_at output 2) }

  unfoldable pub has_cipher_key : NoiseSymmetricState → Bool
  has_cipher_key s = has_key s.cipher_state

  abbrev after_encrypt :
      NoiseSymmetricState
      → NoiseCipherState × Result NoiseError (List ℕ)
      → NoiseSymmetricState × Result NoiseError (List ℕ)
  after_encrypt s (cipher, ok ciphertext) =
      (mix_hash ciphertext (record s { cipher_state = cipher }), ok ciphertext)
  after_encrypt s (cipher, err e) = (record s { cipher_state = cipher }, err e)

  unfoldable pub encrypt_and_hash :
      List ℕ → NoiseSymmetricState → NoiseSymmetricState × Result NoiseError (List ℕ)
  encrypt_and_hash plaintext s =
      if has_cipher_key s
      then after_encrypt s (encrypt crypto.aead s.cipher_state plaintext s.hash)
      else (mix_hash plaintext s, ok plaintext)

  abbrev after_decrypt :
      NoiseSymmetricState
      → List ℕ
      → NoiseCipherState × Result NoiseError (List ℕ)
      → NoiseSymmetricState × Result NoiseError (List ℕ)
  after_decrypt s ciphertext (cipher, ok plaintext) =
      (mix_hash ciphertext (record s { cipher_state = cipher }), ok plaintext)
  after_decrypt s ciphertext (cipher, err e) = (record s { cipher_state = cipher }, err e)

  abbrev decrypt_some :
      List ℕ → NoiseSymmetricState → NoiseSymmetricState × Result NoiseError (List ℕ)
  decrypt_some [] s = (mix_hash [] s, ok [])
  decrypt_some (b ∷ bs) s =
      after_decrypt s (b ∷ bs) (decrypt crypto.aead s.cipher_state (b ∷ bs) s.hash)

  unfoldable pub decrypt_and_hash :
      List ℕ → NoiseSymmetricState → NoiseSymmetricState × Result NoiseError (List ℕ)
  decrypt_and_hash ciphertext s =
      if has_cipher_key s then decrypt_some ciphertext s else (mix_hash ciphertext s, ok ciphertext)

  unfoldable pub split : NoiseSymmetricState → NoiseCipherState × NoiseCipherState
  unfolding hkdf
  split s =
      let output = hkdf s.chaining_key [] 2 in
      (new_with_key (output_at output 0) true, new_with_key (output_at output 1) true)
