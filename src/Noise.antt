-- ===== src/Noise.antt =====
-- The cipher state of src/noise_protocol.rs: ChaCha20-Poly1305 with a counter as its nonce, and the
-- window that refuses a nonce it has seen. The cipher itself is a parameter.
pub mod Window
pub mod Replay
pub mod Delivery
pub mod Conversation
pub mod Symmetric
pub mod PublicKey
pub mod Handshake
pub mod Transcript
pub mod Mirror
pub mod Tokens
pub mod Messages
pub mod Exchange
pub mod Establish
pub mod Sealing
pub mod Writing
pub mod Progress
pub mod Session
pub mod Pairing
pub mod Talk
pub mod Kept
use bitmancer.Prelude.{
  ℕ, zero, suc, ◌+◌, ◌-◌, ◌*◌, ◌%◌, ◌^◌, Bool, true, false, not, Option, none, some, List, [], ◌∷◌,
  ◌++◌, bit_or, ltb, leb, if◌then◌else◌, length, take, drop, filter, replicate, is_some,
}
use bitmancer.Prelude.BitOps.{to_le_bytes}
use bitmancer.Prelude.Keys.{nat_eq}
use bitmancer.Prelude.Sets.{contains, insert}
use bitmancer.Prelude.Results.{Result, ok, err}

pub data NoiseError : Type 0 where
  uninitialized_cipher invalid_ciphertext handshake_complete handshake_not_complete : NoiseError
  missing_local_static_key missing_keys invalid_message authentication_failure : NoiseError
  invalid_public_key replay_detected nonce_exceeded encryption_failed : NoiseError
  decryption_failed invalid_state not_established session_not_found : NoiseError
  already_established : NoiseError

abbrev pub nonce_size_bytes : ℕ
nonce_size_bytes = 4

abbrev pub replay_window_size : ℕ
replay_window_size = 1024

-- `ChaCha20Poly1305`: key, nonce of 12 bytes, associated data, and the text to seal or to open.
pub record Aead : Type 0 where
  pub seal : List ℕ → List ℕ → List ℕ → List ℕ → Option (List ℕ)
  pub unseal : List ℕ → List ℕ → List ℕ → List ℕ → Option (List ℕ)

pub record NoiseCipherState : Type 0 where
  pub key : Option (List ℕ)
  pub nonce : ℕ
  pub use_extracted_nonce : Bool
  pub replay_window : List ℕ
  pub highest_received_nonce : ℕ

unfoldable pub new : NoiseCipherState
new = record {
  key = none;
  nonce = 0;
  use_extracted_nonce = false;
  replay_window = [];
  highest_received_nonce = 0;
}

unfoldable pub new_with_key : List ℕ → Bool → NoiseCipherState
new_with_key key use_extracted_nonce = record {
  key = some key;
  nonce = 0;
  use_extracted_nonce = use_extracted_nonce;
  replay_window = [];
  highest_received_nonce = 0;
}

unfoldable pub initialize_key : NoiseCipherState → List ℕ → NoiseCipherState
initialize_key c key = record c {
  key = some key;
  nonce = 0;
  replay_window = [];
  highest_received_nonce = 0;
}

unfoldable pub has_key : NoiseCipherState → Bool
has_key c = is_some c.key

-- Addition of two `u64`.
abbrev pub add_u64 : ℕ → ℕ → ℕ
add_u64 a b = (a + b) % 2 ^ 64

unfoldable pub is_valid_nonce : NoiseCipherState → ℕ → Bool
is_valid_nonce c received =
    if leb (add_u64 received replay_window_size) c.highest_received_nonce
    then false
    else if ltb c.highest_received_nonce received
    then true
    else not (contains c.replay_window received)

-- What is left of the window once it slides forward to `received`.
unfoldable pub slide : NoiseCipherState → ℕ → List ℕ
slide c received =
    if leb replay_window_size (received - c.highest_received_nonce)
    then []
    else filter (λ n. ltb received (add_u64 n replay_window_size)) c.replay_window

unfoldable pub mark_nonce_as_seen : NoiseCipherState → ℕ → NoiseCipherState
unfolding slide
mark_nonce_as_seen c received =
    if ltb c.highest_received_nonce received
    then record c {
      replay_window = insert received (slide c received);
      highest_received_nonce = received;
    }
    else record c { replay_window = insert received c.replay_window }

-- The loop over the prefix: byte `i` is shifted to its place and joined by `|`.
unfoldable pub or_bytes : ℕ → List ℕ → ℕ → ℕ
or_bytes i [] nonce = nonce
or_bytes i (byte ∷ bytes) nonce = or_bytes (i + 1) bytes (bit_or nonce (byte * 2 ^ (i * 8)))

unfoldable pub extract_nonce_from_ciphertext_payload : List ℕ → Option (ℕ × List ℕ)
unfolding or_bytes
extract_nonce_from_ciphertext_payload combined_payload =
    if ltb (length combined_payload) nonce_size_bytes
    then none
    else some (
      or_bytes 0 (take nonce_size_bytes combined_payload) 0,
      drop nonce_size_bytes combined_payload,
    )

unfoldable pub nonce_to_bytes : ℕ → List ℕ
nonce_to_bytes nonce = take nonce_size_bytes (to_le_bytes 8 nonce)

-- The nonce of the cipher: the counter in its last eight bytes.
unfoldable pub nonce_array : ℕ → List ℕ
nonce_array nonce = replicate 4 0 ++ to_le_bytes 8 nonce

module _ (aead : Aead) where
  unfoldable pub sealed : NoiseCipherState → List ℕ → List ℕ
  unfolding nonce_to_bytes
  sealed c ciphertext =
      if c.use_extracted_nonce then nonce_to_bytes c.nonce ++ ciphertext else ciphertext

  unfoldable pub encrypt :
      NoiseCipherState → List ℕ → List ℕ → NoiseCipherState × Result NoiseError (List ℕ)
  unfolding sealed nonce_array
  encrypt c plaintext associated_data = elim c.key [
    | none ↦ (c, err uninitialized_cipher)
    | some key ↦ elim (aead.seal key (nonce_array c.nonce) associated_data plaintext) [
      | none ↦ (c, err encryption_failed)
      | some ciphertext ↦ (record c { nonce = add_u64 c.nonce 1 }, ok (sealed c ciphertext))
    ]
  ]

  -- A received nonce is marked once the tag has been checked.
  unfoldable pub open_at :
      NoiseCipherState
      → List ℕ
      → List ℕ
      → ℕ
      → List ℕ
      → NoiseCipherState × Result NoiseError (List ℕ)
  unfolding mark_nonce_as_seen nonce_array
  open_at c key associated_data nonce payload =
      elim (aead.unseal key (nonce_array nonce) associated_data payload) [
        | none ↦ (c, err decryption_failed)
        | some plaintext ↦ (
          if c.use_extracted_nonce
              then mark_nonce_as_seen c nonce
              else record c { nonce = add_u64 c.nonce 1 },
          ok plaintext,
        )
      ]

  unfoldable pub decrypt_frame :
      NoiseCipherState
      → List ℕ
      → List ℕ
      → Option (ℕ × List ℕ)
      → NoiseCipherState × Result NoiseError (List ℕ)
  unfolding open_at is_valid_nonce
  decrypt_frame c key associated_data none = (c, err invalid_ciphertext)
  decrypt_frame c key associated_data (some (n, payload)) =
      if is_valid_nonce c n
      then open_at c key associated_data n payload
      else (c, err replay_detected)

  unfoldable pub decrypt :
      NoiseCipherState → List ℕ → List ℕ → NoiseCipherState × Result NoiseError (List ℕ)
  unfolding decrypt_frame open_at extract_nonce_from_ciphertext_payload
  decrypt c ciphertext associated_data = elim c.key [
    | none ↦ (c, err uninitialized_cipher)
    | some key ↦
        if c.use_extracted_nonce
        then decrypt_frame c key associated_data (extract_nonce_from_ciphertext_payload ciphertext)
        else open_at c key associated_data c.nonce ciphertext
  ]
