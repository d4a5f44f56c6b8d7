-- ===== src/Noise/Delivery.antt =====
-- What arrives over an established cipher pair of src/noise_protocol.rs, and what is refused.
use bitmancer.Prelude.{
  ℕ, ◌^◌, ◌≤◌, ◌<◌, ◌≡◌, refl, ◌∙◌, sym, ap, subst, true, false, some, List, [], ◌∷◌, ◌++◌, inl,
  inr, ltb, if◌then◌else◌, length, take, drop, arith, Bool-cases, Option-cases, All, All-take,
  length-take,
}
use bitmancer.Prelude.Bytes.{IsByte, IsBytes}
use bitmancer.Prelude.BitOps.{
  from_le_bytes, from_le_bytes-take-to_le_bytes, to_le_bytes, to_le_bytes-IsBytes,
}
use bitmancer.Prelude.Keys.{nat_eq, beq_refl}
use bitmancer.Prelude.Results.{ok, err}
use bitmancer.Prelude.Sets.{contains}
use bitmancer.Noise.{
  NoiseError, replay_detected, Aead, NoiseCipherState, new_with_key,
  extract_nonce_from_ciphertext_payload, nonce_array, nonce_to_bytes, sealed, encrypt, decrypt,
  decrypt_frame, open_at, add_u64,
}
use bitmancer.Noise.Window.{Accepted, welcomes}
use bitmancer.Noise.Replay.{
  Received, after, replies, receive, receive_all, accepted_after, new-IsReceiver, decrypt-Agrees,
  after-IsReceiver, replies-eq-receive_all,
}

abbrev pub IsFrames : List Received → Type 0
IsFrames = All (λ (f : Received). IsBytes f.0)

IsFrames-prefix :
    (fs : List Received) → IsFrames fs → All (λ (f : Received). IsBytes (take 4 f.0)) fs
IsFrames-prefix [] h = tt
IsFrames-prefix (f ∷ fs) h = (All-take IsByte 4 f.0 h.0, IsFrames-prefix fs h.1)

-- An opened text of the cipher is what was sealed.
abbrev pub IsAead : Aead → Type 0
IsAead aead =
    (key nonce aad plaintext ciphertext : List ℕ)
    → aead.seal key nonce aad plaintext ≡ some ciphertext
    → aead.unseal key nonce aad ciphertext ≡ some plaintext

module _ (aead : Aead) where
  -- Whatever the state and the frame, a `decrypt` that fails, for whatever reason, leaves the cipher
  -- state as it was.
  pub decrypt_failed :
      (c : NoiseCipherState) (frame aad : List ℕ) {e : NoiseError}
      → (decrypt aead c frame aad).1 ≡ err e
      → (decrypt aead c frame aad).0 ≡ c
  unfolding decrypt decrypt_frame open_at
  decrypt_failed c frame aad {e} h =
      ground
        (arith, h, Option-cases c.key, Option-cases (extract_nonce_from_ciphertext_payload frame))

module _ (aead : Aead) (key : List ℕ) where
  -- Whatever frames arrive, the window of 1,024 nonces gives the same replies as a receiver that
  -- remembers all the nonces it has accepted, and refuses those it knows and those 1,024 or more
  -- behind the newest.
  pub window_refines :
      (fs : List Received)
      → IsFrames fs
      → replies aead (new_with_key key true) fs ≡ receive_all aead key [] fs
  window_refines fs h =
      replies-eq-receive_all aead key (new_with_key key true) [] fs (new-IsReceiver aead key)
        (IsFrames-prefix fs h)

  receive-contains :
      (accepted : Accepted) (n : ℕ) (frame aad : List ℕ)
      → contains accepted n ≡ true
      → contains (receive aead key accepted frame aad).0 n ≡ true
  unfolding receive contains
  receive-contains accepted n frame aad h = ground (
    arith,
    h,
    Option-cases (aead.unseal key (nonce_array (from_le_bytes (take 4 frame))) aad (drop 4 frame)),
  )

  accepted_after-contains :
      (accepted : Accepted) (n : ℕ) (fs : List Received)
      → contains accepted n ≡ true
      → contains (accepted_after aead key accepted fs) n ≡ true
  unfolding accepted_after
  accepted_after-contains accepted n [] h = h
  accepted_after-contains accepted n ((frame, aad) ∷ fs) h =
      accepted_after-contains (receive aead key accepted frame aad).0 n fs
        (receive-contains accepted n frame aad h)

  receive_ok :
      (accepted : Accepted) (frame aad m : List ℕ)
      → (receive aead key accepted frame aad).1 ≡ ok m
      → (4 ≤ length frame)
        × (contains (receive aead key accepted frame aad).0 (from_le_bytes (take 4 frame)) ≡ true)
  unfolding receive contains
  receive_ok accepted frame aad m h = ground (
    arith,
    h,
    beq_refl (from_le_bytes (take 4 frame)),
    Option-cases (aead.unseal key (nonce_array (from_le_bytes (take 4 frame))) aad (drop 4 frame)),
  )

  receive_known :
      (accepted : Accepted) (frame aad : List ℕ)
      → 4 ≤ length frame
      → contains accepted (from_le_bytes (take 4 frame)) ≡ true
      → receive aead key accepted frame aad ≡ (accepted, err replay_detected)
  unfolding receive welcomes
  receive_known accepted frame aad long known = ground (arith, known)

  same_prefix_length : (f g : List ℕ) → take 4 f ≡ take 4 g → 4 ≤ length f → 4 ≤ length g
  same_prefix_length f g e h = omega (arith, length-take 4 f, length-take 4 g, ap length e)

  -- Once a frame has been opened, any frame with the same four leading bytes is refused as a replay,
  -- whatever follows the prefix, whatever frames came before and in between, and whatever the
  -- associated data, and the cipher state stays as it was.
  pub replay_refused :
      (before between : List Received) (first again aad aad' plaintext : List ℕ)
      → IsFrames before
      → IsFrames between
      → IsBytes first
      → take 4 first ≡ take 4 again
      → (decrypt aead (after aead (new_with_key key true) before) first aad).1 ≡ ok plaintext
      → let later =
          after aead
            (decrypt aead (after aead (new_with_key key true) before) first aad).0
            between in
        decrypt aead later again aad' ≡ (later, err replay_detected)
  replay_refused before between first again aad aad' plaintext hb hm hf same opened =
      let accepted = accepted_after aead key [] before in
      let start =
        after-IsReceiver aead key (new_with_key key true) [] before (new-IsReceiver aead key)
          (IsFrames-prefix before hb) in
      let step = decrypt-Agrees aead key _ accepted first aad start (All-take IsByte 4 first hf) in
      let (long, inside) = receive_ok accepted first aad plaintext (sym step.reply ∙ opened) in
      let r = after-IsReceiver aead key _ _ between step.states (IsFrames-prefix between hm) in
      let last =
        decrypt-Agrees aead key _ _ again aad' r
          (subst IsBytes same (All-take IsByte 4 first hf)) in
      let known =
        accepted_after-contains (receive aead key accepted first aad).0
          (from_le_bytes (take 4 first)) between inside in
      let refused =
        receive_known _ again aad' (same_prefix_length first again same long) (rw (← same) known) in
      let reply = last.reply ∙ ap (λ r. r.1) refused in
      λ i. (decrypt_failed aead _ again aad' reply i, reply i)

  pub sealed_prefix :
      (n : ℕ) (ciphertext : List ℕ)
      → (take 4 (nonce_to_bytes n ++ ciphertext) ≡ take 4 (to_le_bytes 8 n))
        × (drop 4 (nonce_to_bytes n ++ ciphertext) ≡ ciphertext)
  unfolding nonce_to_bytes to_le_bytes
  sealed_prefix n ciphertext = (refl, refl)

  sealed_length : (n : ℕ) (ciphertext : List ℕ) → 4 ≤ length (nonce_to_bytes n ++ ciphertext)
  unfolding nonce_to_bytes to_le_bytes
  sealed_length n ciphertext = omega arith

  pub encrypt_ok :
      (s : NoiseCipherState) (plaintext aad frame : List ℕ)
      → s.key ≡ some key
      → s.use_extracted_nonce ≡ true
      → (encrypt aead s plaintext aad).1 ≡ ok frame
      → (ciphertext : List ℕ) × (aead.seal key (nonce_array s.nonce) aad plaintext
          ≡ some ciphertext)
        × (frame ≡ nonce_to_bytes s.nonce ++ ciphertext)
        × ((encrypt aead s plaintext aad).0 ≡ record s { nonce = add_u64 s.nonce 1 })
  unfolding encrypt sealed nonce_array
  encrypt_ok s plaintext aad frame k mode h =
      elim (Option-cases (aead.seal key (nonce_array s.nonce) aad plaintext)) [
        | inl bad ↦ absurd (ground (arith, k, bad, h))
        | inr (c, good) ↦
            (c, good, ground (arith, k, mode, good, h), ground (arith, k, mode, good, h))
      ]

  pub receive_sealed :
      (accepted : Accepted) (n : ℕ) (plaintext aad ciphertext : List ℕ)
      → IsAead aead
      → n < 2 ^ 32
      → aead.seal key (nonce_array n) aad plaintext ≡ some ciphertext
      → receive aead key accepted (nonce_to_bytes n ++ ciphertext) aad ≡ (
          if welcomes accepted n
          then (n ∷ accepted, ok plaintext)
          else (accepted, err replay_detected))
  unfolding receive
  receive_sealed accepted n plaintext aad ciphertext law small e =
      let nonce : from_le_bytes (take 4 (nonce_to_bytes n ++ ciphertext)) ≡ n =
        ap from_le_bytes (sealed_prefix n ciphertext).0
        ∙ from_le_bytes-take-to_le_bytes n
        ∙ omega arith in
      let long : ltb (length (nonce_to_bytes n ++ ciphertext)) 4 ≡ false =
        ground (arith, sealed_length n ciphertext) in
      rw
        (
          long,
          nonce,
          (sealed_prefix n ciphertext).1,
          law key (nonce_array n) aad plaintext ciphertext e,
        )
        refl

  -- If what is unsealed is what was sealed: a frame that the cipher at counter `n` makes of a text
  -- opens to that text at a receiver with the same key, after any frames, exactly when `n` was not
  -- accepted before and is less than 1,024 behind the newest accepted; else it is refused as a replay.
  pub frame_opens :
      (fs : List Received) (s : NoiseCipherState) (plaintext aad frame : List ℕ)
      → IsAead aead
      → IsFrames fs
      → s.key ≡ some key
      → s.use_extracted_nonce ≡ true
      → s.nonce < 2 ^ 32
      → (encrypt aead s plaintext aad).1 ≡ ok frame
      → (decrypt aead (after aead (new_with_key key true) fs) frame aad).1 ≡ (
          if welcomes (accepted_after aead key [] fs) s.nonce
          then ok plaintext
          else err replay_detected)
  frame_opens fs s plaintext aad frame law h k mode small sent =
      let accepted = accepted_after aead key [] fs in
      let r =
        after-IsReceiver aead key (new_with_key key true) [] fs (new-IsReceiver aead key)
          (IsFrames-prefix fs h) in
      let (ciphertext, sealing, shape, next) = encrypt_ok s plaintext aad frame k mode sent in
      let bytes : IsBytes (take 4 frame) = rw shape (
        rw ((sealed_prefix s.nonce ciphertext).0)
          (All-take IsByte 4 (to_le_bytes 8 s.nonce) (to_le_bytes-IsBytes 8 s.nonce))) in
      (decrypt-Agrees aead key _ accepted frame aad r bytes).reply
      ∙ rw (shape, receive_sealed accepted s.nonce plaintext aad ciphertext law small sealing)
          (elim (Bool-cases (welcomes accepted s.nonce)) [
            | inl fine ↦ rw fine refl
            | inr old ↦ rw old refl
          ])
