-- ===== src/Noise/Handshake.antt =====
-- The handshake of src/noise_protocol.rs: what the tokens of a message pattern write and read. A
-- message has at most one ephemeral key; the random secret it is made from is an argument.
use bitmancer.Prelude.{
  ℕ, ◌+◌, Bool, not, Option, none, some, List, [], ◌∷◌, ◌++◌, ltb, leb, ◌==◌, if◌then◌else◌, length,
  take, drop, get_elem?,
}
use bitmancer.Prelude.Results.{Result, ok, err, is_ok}
use bitmancer.Noise.{
  NoiseError, handshake_complete, handshake_not_complete, missing_local_static_key, missing_keys,
  invalid_message, authentication_failure, NoiseCipherState,
}
use bitmancer.Noise.PublicKey.{validate_public_key}
use bitmancer.Noise.Symmetric.{
  Primitives, NoisePattern, xx, ik, nk, x, full_name, NoiseSymmetricState, new_symmetric, mix_hash,
  mix_key, has_cipher_key, encrypt_and_hash, decrypt_and_hash, split,
}

pub data NoiseRole : Type 0 where
  initiator responder : NoiseRole

pub data NoiseMessagePattern : Type 0 where
  e s ee es se ss : NoiseMessagePattern

abbrev pub message_patterns_of : NoisePattern → List (List NoiseMessagePattern)
message_patterns_of xx = (e ∷ []) ∷ (e ∷ ee ∷ s ∷ es ∷ []) ∷ (s ∷ se ∷ []) ∷ []
message_patterns_of ik = (e ∷ es ∷ s ∷ ss ∷ []) ∷ (e ∷ ee ∷ se ∷ []) ∷ []
message_patterns_of nk = (e ∷ es ∷ []) ∷ (e ∷ ee ∷ []) ∷ []
message_patterns_of x = (e ∷ es ∷ s ∷ ss ∷ []) ∷ []

pub record NoiseHandshakeState : Type 0 where
  pub role : NoiseRole
  pub pattern : NoisePattern
  pub symmetric_state : NoiseSymmetricState
  pub local_static_private : Option (List ℕ)
  pub local_static_public : Option (List ℕ)
  pub local_ephemeral_private : Option (List ℕ)
  pub local_ephemeral_public : Option (List ℕ)
  pub remote_static_public : Option (List ℕ)
  pub remote_ephemeral_public : Option (List ℕ)
  pub message_patterns : List (List NoiseMessagePattern)
  pub current_pattern : ℕ

-- A call that may fail, with the state it leaves in either case.
abbrev pub Step : Type 0 → Type 0
Step A = NoiseHandshakeState × Result NoiseError A

abbrev pub then_do :
    {A : Type 0} {B : Type 0} → Step A → (NoiseHandshakeState → A → Step B) → Step B
then_do (h, ok a) f = f h a
then_do (h, err bad) f = (h, err bad)

abbrev pub leaving : List ℕ → NoiseHandshakeState → Unit {0} → Step (List ℕ)
leaving bytes h done = (h, ok bytes)

abbrev pub option_map : (List ℕ → List ℕ) → Option (List ℕ) → Option (List ℕ)
option_map f none = none
option_map f (some a) = some (f a)

abbrev pub with_symmetric :
    {A : Type 0} → NoiseHandshakeState → NoiseSymmetricState × Result NoiseError A → Step A
with_symmetric h (state, reply) = (record h { symmetric_state = state }, reply)

module _ (crypto : Primitives) where
  abbrev mix_known : Option (List ℕ) → NoiseSymmetricState → NoiseSymmetricState
  mix_known none state = state
  mix_known (some key) state = mix_hash crypto key state

  abbrev pub responder_static : NoiseHandshakeState → Option (List ℕ)
  responder_static h = elim h.role [
    | initiator ↦ h.remote_static_public
    | responder ↦ h.local_static_public
  ]

  unfoldable pub mix_pre_message_keys : List ℕ → NoiseHandshakeState → NoiseHandshakeState
  mix_pre_message_keys prologue h =
      let mixed = mix_hash crypto prologue h.symmetric_state in
      record h {
        symmetric_state = elim h.pattern [
          | xx ↦ mixed
          | ik ↦ mix_known (responder_static h) mixed
          | nk ↦ mix_known (responder_static h) mixed
          | x ↦ mix_known (responder_static h) mixed
        ];
      }

  unfoldable pub with_prologue :
      NoiseRole → NoisePattern → Option (List ℕ) → Option (List ℕ) → List ℕ → NoiseHandshakeState
  unfolding mix_pre_message_keys
  with_prologue role pattern local_static_key remote_static_key prologue =
      mix_pre_message_keys prologue (record {
        role = role;
        pattern = pattern;
        symmetric_state = new_symmetric crypto (full_name pattern);
        local_static_private = local_static_key;
        local_static_public = option_map crypto.public_key local_static_key;
        local_ephemeral_private = none;
        local_ephemeral_public = none;
        remote_static_public = remote_static_key;
        remote_ephemeral_public = none;
        message_patterns = message_patterns_of pattern;
        current_pattern = 0;
      })

  unfoldable pub new_handshake :
      NoiseRole → NoisePattern → Option (List ℕ) → Option (List ℕ) → NoiseHandshakeState
  unfolding with_prologue
  new_handshake role pattern local_static_key remote_static_key =
      with_prologue role pattern local_static_key remote_static_key []

  -- A shared secret is mixed into the key, if both halves are there.
  unfoldable pub mix_shared :
      Option (List ℕ) → Option (List ℕ) → NoiseHandshakeState → Step (Unit {0})
  mix_shared none theirs h = (h, err missing_keys)
  mix_shared (some ours) none h = (h, err missing_keys)
  mix_shared (some ours) (some theirs) h = (
    record h {
      symmetric_state = mix_key crypto (crypto.diffie_hellman ours theirs) h.symmetric_state;
    },
    ok tt,
  )

  -- The tokens `ee`, `es`, `se` and `ss`, the same in `write_message` and in `read_message`.
  unfoldable pub mix_ee : NoiseHandshakeState → Step (Unit {0})
  unfolding mix_shared
  mix_ee h = mix_shared h.local_ephemeral_private h.remote_ephemeral_public h

  unfoldable pub mix_es : NoiseHandshakeState → Step (Unit {0})
  unfolding mix_shared
  mix_es h = elim h.role [
    | initiator ↦ mix_shared h.local_ephemeral_private h.remote_static_public h
    | responder ↦ mix_shared h.local_static_private h.remote_ephemeral_public h
  ]

  unfoldable pub mix_se : NoiseHandshakeState → Step (Unit {0})
  unfolding mix_shared
  mix_se h = elim h.role [
    | initiator ↦ mix_shared h.local_static_private h.remote_ephemeral_public h
    | responder ↦ mix_shared h.local_ephemeral_private h.remote_static_public h
  ]

  unfoldable pub mix_ss : NoiseHandshakeState → Step (Unit {0})
  unfolding mix_shared
  mix_ss h = mix_shared h.local_static_private h.remote_static_public h

  abbrev pub write_static : Option (List ℕ) → NoiseHandshakeState → Step (List ℕ)
  write_static none h = (h, err missing_local_static_key)
  write_static (some key) h = with_symmetric h (encrypt_and_hash crypto key h.symmetric_state)

  -- A token of `write_message`, with the bytes it adds to the message.
  unfoldable pub write_token : List ℕ → NoiseMessagePattern → NoiseHandshakeState → Step (List ℕ)
  write_token random e h = (
    record h {
      local_ephemeral_private = some random;
      local_ephemeral_public = some (crypto.public_key random);
      symmetric_state = mix_hash crypto (crypto.public_key random) h.symmetric_state;
    },
    ok (crypto.public_key random),
  )
  write_token random s h = write_static h.local_static_public h
  write_token random ee h = then_do (mix_ee h) (leaving [])
  write_token random es h = then_do (mix_es h) (leaving [])
  write_token random se h = then_do (mix_se h) (leaving [])
  write_token random ss h = then_do (mix_ss h) (leaving [])

  -- The loop over the tokens, with what is in the buffer.
  unfoldable pub write_tokens :
      List ℕ → List NoiseMessagePattern → List ℕ → NoiseHandshakeState → Step (List ℕ)
  unfolding write_token
  write_tokens random [] buffer h = (h, ok buffer)
  write_tokens random (t ∷ ts) buffer h =
      then_do (write_token random t h) (λ h' bytes. write_tokens random ts (buffer ++ bytes) h')

  abbrev pub seal_payload : List ℕ → List ℕ → NoiseHandshakeState → Step (List ℕ)
  seal_payload payload buffer h =
      then_do (with_symmetric h (encrypt_and_hash crypto payload h.symmetric_state)) (λ h' sealed.
        (record h' { current_pattern = h'.current_pattern + 1 }, ok (buffer ++ sealed)))

  unfoldable pub write_message : List ℕ → List ℕ → NoiseHandshakeState → Step (List ℕ)
  unfolding write_tokens
  write_message random payload h = elim (get_elem? h.message_patterns h.current_pattern) [
    | none ↦ (h, err handshake_complete)
    | some tokens ↦
        then_do (write_tokens random tokens [] h) (λ h' buffer. seal_payload payload buffer h')
  ]

  -- The tokens of `read_message`, with what is left of the message after each.
  abbrev pub read_ephemeral :
      Result NoiseError (List ℕ) → List ℕ → NoiseHandshakeState → Step (List ℕ)
  read_ephemeral (err bad) message h = (h, err bad)
  read_ephemeral (ok key) message h = (
    record h {
      remote_ephemeral_public = some key;
      symmetric_state = mix_hash crypto (take 32 message) h.symmetric_state;
    },
    ok (drop 32 message),
  )

  unfoldable pub accept_static : List ℕ → List ℕ → NoiseHandshakeState → Step (List ℕ)
  accept_static key rest h =
      if not (length key == 32)
      then (h, err invalid_message)
      else if is_ok (validate_public_key key)
      then (record h { remote_static_public = some key }, ok rest)
      else (h, err authentication_failure)

  unfoldable pub read_static : ℕ → List ℕ → NoiseHandshakeState → Step (List ℕ)
  unfolding accept_static
  read_static key_length message h =
      if ltb (length message) key_length
      then (h, err invalid_message)
      else then_do
          (with_symmetric h (decrypt_and_hash crypto (take key_length message) h.symmetric_state))
          (λ h' key. accept_static key (drop key_length message) h')

  unfoldable pub read_token : NoiseMessagePattern → List ℕ → NoiseHandshakeState → Step (List ℕ)
  read_token e message h =
      if ltb (length message) 32
      then (h, err invalid_message)
      else read_ephemeral (validate_public_key (take 32 message)) message h
  read_token s message h =
      read_static (if has_cipher_key crypto h.symmetric_state then 48 else 32) message h
  read_token ee message h = then_do (mix_ee h) (leaving message)
  read_token es message h = then_do (mix_es h) (leaving message)
  read_token se message h = then_do (mix_se h) (leaving message)
  read_token ss message h = then_do (mix_ss h) (leaving message)

  unfoldable pub read_tokens :
      List NoiseMessagePattern → List ℕ → NoiseHandshakeState → Step (List ℕ)
  unfolding read_token
  read_tokens [] message h = (h, ok message)
  read_tokens (t ∷ ts) message h =
      then_do (read_token t message h) (λ h' rest. read_tokens ts rest h')

  abbrev pub open_payload : List ℕ → NoiseHandshakeState → Step (List ℕ)
  open_payload payload h =
      then_do (with_symmetric h (decrypt_and_hash crypto payload h.symmetric_state))
        (λ h' opened. (record h' { current_pattern = h'.current_pattern + 1 }, ok opened))

  unfoldable pub read_message : List ℕ → NoiseHandshakeState → Step (List ℕ)
  unfolding read_tokens
  read_message message h = elim (get_elem? h.message_patterns h.current_pattern) [
    | none ↦ (h, err handshake_complete)
    | some tokens ↦ then_do (read_tokens tokens message h) (λ h' payload. open_payload payload h')
  ]

  unfoldable pub is_handshake_complete : NoiseHandshakeState → Bool
  is_handshake_complete h = leb (length h.message_patterns) h.current_pattern

  unfoldable pub get_transport_ciphers :
      NoiseHandshakeState → Result NoiseError (NoiseCipherState × NoiseCipherState)
  unfolding is_handshake_complete
  get_transport_ciphers h =
      let (c1, c2) = split crypto h.symmetric_state in
      if is_handshake_complete h
      then ok (elim h.role [ initiator ↦ (c1, c2) | responder ↦ (c2, c1) ])
      else err handshake_not_complete
