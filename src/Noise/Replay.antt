-- ===== src/Noise/Replay.antt =====
-- What a receiver of src/noise_protocol.rs does with the frames of a conversation, against a
-- receiver that remembers every nonce it has accepted.
use bitmancer.Prelude.{
  ℕ, ◌+◌, ◌*◌, ◌^◌, ◌<◌, ◌≡◌, refl, true, Option, none, some, List, [], ◌∷◌, inl, inr, ltb,
  if◌then◌else◌, length, take, drop, arith, Bool-cases, Option-cases, All,
}
use bitmancer.Prelude.Bytes.{IsBytes}
use bitmancer.Prelude.BitOps.{from_le_bytes, from_le_bytes_bound, bit_or_shift}
use bitmancer.Prelude.Keys.{nat_eq}
use bitmancer.Prelude.Results.{Result, ok, err}
use bitmancer.Prelude.Sets.{contains-nil}
use bitmancer.Noise.{
  NoiseError, invalid_ciphertext, replay_detected, decryption_failed, Aead, NoiseCipherState,
  new_with_key, or_bytes, extract_nonce_from_ciphertext_payload, nonce_array, open_at,
  decrypt_frame, decrypt, mark_nonce_as_seen,
}
use bitmancer.Noise.Window.{Accepted, newest, welcomes, Tracks, is_valid-eq-welcomes, mark-Tracks}

or_bytes-four :
    (a b c d : ℕ)
    → IsBytes (a ∷ b ∷ c ∷ d ∷ [])
    → or_bytes 0 (a ∷ b ∷ c ∷ d ∷ []) 0 ≡ from_le_bytes (a ∷ b ∷ c ∷ d ∷ [])
unfolding or_bytes from_le_bytes
or_bytes-four a b c d h = rw (bit_or_shift 0 0 a (omega arith)) (
    rw (bit_or_shift 8 (0 + a * 2 ^ 0) b (omega (arith, h.0))) (
      rw (bit_or_shift 16 (0 + a * 2 ^ 0 + b * 2 ^ 8) c (omega (arith, h.0, h.1.0))) (
        rw
          (bit_or_shift 24 (0 + a * 2 ^ 0 + b * 2 ^ 8 + c * 2 ^ 16) d
            (omega (arith, h.0, h.1.0, h.1.1.0)))
          (omega arith))))

-- The prefix, read by shifts and `|`, is the little-endian number it encodes.
pub extract-eq-from_le_bytes :
    (frame : List ℕ)
    → IsBytes (take 4 frame)
    → extract_nonce_from_ciphertext_payload frame
      ≡ (if ltb (length frame) 4 then none else some (from_le_bytes (take 4 frame), drop 4 frame))
unfolding extract_nonce_from_ciphertext_payload
extract-eq-from_le_bytes [] h = refl
extract-eq-from_le_bytes (a ∷ []) h = refl
extract-eq-from_le_bytes (a ∷ b ∷ []) h = refl
extract-eq-from_le_bytes (a ∷ b ∷ c ∷ []) h = refl
extract-eq-from_le_bytes (a ∷ b ∷ c ∷ d ∷ rest) h = ground (arith, or_bytes-four a b c d h)

prefix_bound : (frame : List ℕ) → IsBytes (take 4 frame) → from_le_bytes (take 4 frame) < 2 ^ 32
prefix_bound [] h = omega (arith, from_le_bytes_bound [] h)
prefix_bound (a ∷ []) h = omega (arith, from_le_bytes_bound (a ∷ []) h)
prefix_bound (a ∷ b ∷ []) h = omega (arith, from_le_bytes_bound (a ∷ b ∷ []) h)
prefix_bound (a ∷ b ∷ c ∷ []) h = omega (arith, from_le_bytes_bound (a ∷ b ∷ c ∷ []) h)
prefix_bound (a ∷ b ∷ c ∷ d ∷ rest) h = omega (arith, from_le_bytes_bound (a ∷ b ∷ c ∷ d ∷ []) h)

-- A frame with its associated data.
abbrev pub Received : Type 0
Received = List ℕ × List ℕ

module _ (aead : Aead) where
  -- Frames given to `decrypt` one after the other: the last state.
  unfoldable pub after : NoiseCipherState → List Received → NoiseCipherState
  after c [] = c
  after c ((frame, aad) ∷ fs) = after (decrypt aead c frame aad).0 fs

  -- And the replies.
  unfoldable pub replies : NoiseCipherState → List Received → List (Result NoiseError (List ℕ))
  replies c [] = []
  replies c ((frame, aad) ∷ fs) =
      let (c', reply) = decrypt aead c frame aad in reply ∷ replies c' fs

  pub replies-cons :
      (c : NoiseCipherState) (frame aad : List ℕ) (fs : List Received)
      → replies c ((frame, aad) ∷ fs)
        ≡ (decrypt aead c frame aad).1 ∷ replies (decrypt aead c frame aad).0 fs
  unfolding replies
  replies-cons c frame aad fs = refl

module _ (aead : Aead) (key : List ℕ) where
  abbrev open_fresh : Accepted → ℕ → Option (List ℕ) → Accepted × Result NoiseError (List ℕ)
  open_fresh accepted n none = (accepted, err decryption_failed)
  open_fresh accepted n (some plaintext) = (n ∷ accepted, ok plaintext)

  -- A receiver that remembers every nonce.
  unfoldable pub receive : Accepted → List ℕ → List ℕ → Accepted × Result NoiseError (List ℕ)
  receive accepted frame aad =
      let n = from_le_bytes (take 4 frame) in
      if ltb (length frame) 4
      then (accepted, err invalid_ciphertext)
      else if welcomes accepted n
      then open_fresh accepted n (aead.unseal key (nonce_array n) aad (drop 4 frame))
      else (accepted, err replay_detected)

  unfoldable pub accepted_after : Accepted → List Received → Accepted
  accepted_after accepted [] = accepted
  accepted_after accepted ((frame, aad) ∷ fs) = accepted_after (receive accepted frame aad).0 fs

  unfoldable pub receive_all : Accepted → List Received → List (Result NoiseError (List ℕ))
  receive_all accepted [] = []
  receive_all accepted ((frame, aad) ∷ fs) =
      let (accepted', reply) = receive accepted frame aad in reply ∷ receive_all accepted' fs

  pub record IsReceiver (c : NoiseCipherState) (accepted : Accepted) : Type 0 where
    pub keyed : c.key ≡ some key
    pub transport : c.use_extracted_nonce ≡ true
    pub tracks : Tracks c accepted

  pub new-IsReceiver : IsReceiver (new_with_key key true) []
  unfolding new_with_key newest
  new-IsReceiver = record {
    keyed = refl;
    transport = refl;
    tracks = record { highest = refl; below = omega arith; recent = λ d. rw contains-nil refl };
  }

  mark-IsReceiver :
      (c : NoiseCipherState) (accepted : Accepted) (n : ℕ)
      → IsReceiver c accepted
      → n < 2 ^ 32
      → welcomes accepted n ≡ true
      → IsReceiver (mark_nonce_as_seen c n) (n ∷ accepted)
  mark-IsReceiver c accepted n r small fine = record {
    keyed = unfold mark_nonce_as_seen in ground (arith, r.keyed);
    transport = unfold mark_nonce_as_seen in ground (arith, r.transport);
    tracks = mark-Tracks c accepted n r.tracks small fine;
  }

  -- One frame: the same reply, and the states keep together.
  pub record Agrees (code : NoiseCipherState × Result NoiseError (List ℕ))
      (ideal : Accepted × Result NoiseError (List ℕ)) : Type 0 where
    pub reply : code.1 ≡ ideal.1
    pub states : IsReceiver code.0 ideal.0

  open_at-transport :
      (c : NoiseCipherState) (n : ℕ) (aad payload : List ℕ) (opened : Option (List ℕ))
      → c.use_extracted_nonce ≡ true
      → aead.unseal key (nonce_array n) aad payload ≡ opened
      → open_at aead c key aad n payload ≡ elim opened [
        | none ↦ (c, err decryption_failed)
        | some plaintext ↦ (mark_nonce_as_seen c n, ok plaintext)
      ]
  unfolding open_at nonce_array
  open_at-transport c n aad payload none mode e = ground (arith, e)
  open_at-transport c n aad payload (some plaintext) mode e = ground (arith, e, mode)

  open-Agrees :
      (c : NoiseCipherState) (accepted : Accepted) (n : ℕ) (aad payload : List ℕ)
      → IsReceiver c accepted
      → n < 2 ^ 32
      → welcomes accepted n ≡ true
      → Agrees
          (open_at aead c key aad n payload)
          (open_fresh accepted n (aead.unseal key (nonce_array n) aad payload))
  open-Agrees c accepted n aad payload r small fine =
      elim (Option-cases (aead.unseal key (nonce_array n) aad payload)) [
        | inl bad ↦
            rw (open_at-transport c n aad payload none r.transport bad)
              (rw bad (record { reply = refl; states = r }))
        | inr (plaintext, good) ↦
            rw (open_at-transport c n aad payload (some plaintext) r.transport good) (
              rw good (record { reply = refl; states = mark-IsReceiver c accepted n r small fine }))
      ]

  decrypt-transport :
      (c : NoiseCipherState) (accepted : Accepted) (frame aad : List ℕ)
      → IsReceiver c accepted
      → decrypt aead c frame aad
        ≡ decrypt_frame aead c key aad (extract_nonce_from_ciphertext_payload frame)
  unfolding decrypt
  decrypt-transport c accepted frame aad r = ground (arith, r.keyed, r.transport)

  frame-Agrees :
      (c : NoiseCipherState) (accepted : Accepted) (n : ℕ) (aad payload : List ℕ)
      → IsReceiver c accepted
      → n < 2 ^ 32
      → Agrees (decrypt_frame aead c key aad (some (n, payload))) (
          if welcomes accepted n
          then open_fresh accepted n (aead.unseal key (nonce_array n) aad payload)
          else (accepted, err replay_detected))
  unfolding decrypt_frame
  frame-Agrees c accepted n aad payload r small =
      rw (is_valid-eq-welcomes c accepted n r.tracks small)
        (elim (Bool-cases (welcomes accepted n)) [
          | inl fine ↦ rw fine (open-Agrees c accepted n aad payload r small fine)
          | inr old ↦ rw old (record { reply = refl; states = r })
        ])

  pub decrypt-Agrees :
      (c : NoiseCipherState) (accepted : Accepted) (frame aad : List ℕ)
      → IsReceiver c accepted
      → IsBytes (take 4 frame)
      → Agrees (decrypt aead c frame aad) (receive accepted frame aad)
  unfolding receive
  decrypt-Agrees c accepted frame aad r bytes =
      rw (decrypt-transport c accepted frame aad r, extract-eq-from_le_bytes frame bytes)
        (elim (Bool-cases (ltb (length frame) 4)) [
          | inl short ↦ rw short (unfold decrypt_frame in record { reply = refl; states = r })
          | inr long ↦ rw long (
              frame-Agrees c accepted (from_le_bytes (take 4 frame)) aad (drop 4 frame) r
                (prefix_bound frame bytes))
        ])

  pub after-IsReceiver :
      (c : NoiseCipherState) (accepted : Accepted) (fs : List Received)
      → IsReceiver c accepted
      → All (λ (f : Received). IsBytes (take 4 f.0)) fs
      → IsReceiver (after aead c fs) (accepted_after accepted fs)
  unfolding after accepted_after
  after-IsReceiver c accepted [] r h = r
  after-IsReceiver c accepted ((frame, aad) ∷ fs) r h =
      after-IsReceiver (decrypt aead c frame aad).0 (receive accepted frame aad).0 fs
        (decrypt-Agrees c accepted frame aad r h.0).states h.1

  pub replies-eq-receive_all :
      (c : NoiseCipherState) (accepted : Accepted) (fs : List Received)
      → IsReceiver c accepted
      → All (λ (f : Received). IsBytes (take 4 f.0)) fs
      → replies aead c fs ≡ receive_all accepted fs
  unfolding replies receive_all
  replies-eq-receive_all c accepted [] r h = refl
  replies-eq-receive_all c accepted ((frame, aad) ∷ fs) r h =
      let step = decrypt-Agrees c accepted frame aad r h.0 in
      λ i.
        step.reply i
        ∷ replies-eq-receive_all (decrypt aead c frame aad).0 (receive accepted frame aad).0 fs
            step.states h.1 i
