-- ===== src/Noise/Conversation.antt =====
-- A whole conversation over a new cipher pair of src/noise_protocol.rs.
use bitmancer.Prelude.{
  ℕ, ◌+◌, ◌^◌, ◌≤◌, ◌<◌, ◌≡◌, refl, ◌∙◌, ap, true, Option, none, some, List, [], ◌∷◌, length, take,
  map, arith, All, All-take, is_some,
}
use bitmancer.Prelude.Bytes.{IsByte, IsBytes}
use bitmancer.Prelude.BitOps.{to_le_bytes, to_le_bytes-IsBytes}
use bitmancer.Prelude.Keys.{nat_eq}
use bitmancer.Prelude.Results.{Result, ok, err}
use bitmancer.Prelude.Sets.{contains, contains-nil}
use bitmancer.Noise.{NoiseError, Aead, NoiseCipherState, new_with_key, encrypt, decrypt, add_u64}
use bitmancer.Noise.Window.{Accepted, newest, welcomes}
use bitmancer.Noise.Replay.{
  Received, replies, replies-cons, receive, IsReceiver, new-IsReceiver, decrypt-Agrees,
}
use bitmancer.Noise.Sealing.{Seals, encrypt_runs}
use bitmancer.Noise.Delivery.{IsAead, sealed_prefix, encrypt_ok, receive_sealed}

module _ (aead : Aead) (key : List ℕ) where
  -- The texts sealed one after the other, with their associated data: `none` if one fails.
  abbrev add_frame :
      List ℕ → Result NoiseError (List ℕ) → Option (List Received) → Option (List Received)
  add_frame aad (ok frame) (some fs) = some ((frame, aad) ∷ fs)
  add_frame aad (ok frame) none = none
  add_frame aad (err e) rest = none

  unfoldable pub send_all : NoiseCipherState → List Received → Option (List Received)
  send_all s [] = some []
  send_all s ((plaintext, aad) ∷ ms) =
      let (s', reply) = encrypt aead s plaintext aad in add_frame aad reply (send_all s' ms)

  -- The sender's counter is ahead of all that the receiver has accepted.
  pub record InStep (s c : NoiseCipherState) (accepted : Accepted) : Type 0 where
    pub receiver : IsReceiver aead key c accepted
    pub keyed : s.key ≡ some key
    pub transport : s.use_extracted_nonce ≡ true
    pub ahead : (d : ℕ) → contains accepted d ≡ true → d < s.nonce
    pub near : newest accepted ≤ s.nonce

  -- A new pair of ciphers.
  pub new-InStep : InStep (new_with_key key true) (new_with_key key true) []
  new-InStep = record {
    receiver = new-IsReceiver aead key;
    keyed = unfold new_with_key in refl;
    transport = unfold new_with_key in refl;
    ahead = λ d. rw contains-nil (λ h. cc);
    near = unfold newest in omega arith;
  }

  pub step_delivers :
      (s c : NoiseCipherState) (accepted : Accepted) (plaintext aad frame : List ℕ)
      → IsAead aead
      → InStep s c accepted
      → s.nonce + 1 ≤ 2 ^ 32
      → (encrypt aead s plaintext aad).1 ≡ ok frame
      → InStep (encrypt aead s plaintext aad).0 (decrypt aead c frame aad).0 (s.nonce ∷ accepted)
        × ((decrypt aead c frame aad).1 ≡ ok plaintext)
  step_delivers s c accepted plaintext aad frame law h small sent =
      let (ciphertext, sealing, shape, next) =
        encrypt_ok aead key s plaintext aad frame h.keyed h.transport sent in
      let bytes : IsBytes (take 4 frame) = rw shape (
        rw ((sealed_prefix aead key s.nonce ciphertext).0)
          (All-take IsByte 4 (to_le_bytes 8 s.nonce) (to_le_bytes-IsBytes 8 s.nonce))) in
      let welcome : welcomes accepted s.nonce ≡ true =
        unfold welcomes in ground (arith, h.ahead s.nonce, h.near) in
      let got : receive aead key accepted frame aad ≡ (s.nonce ∷ accepted, ok plaintext) =
        rw shape (
          receive_sealed aead key accepted s.nonce plaintext aad ciphertext law (omega arith)
            sealing
          ∙ rw welcome refl) in
      let step = decrypt-Agrees aead key c accepted frame aad h.receiver bytes in
      let count : add_u64 s.nonce 1 ≡ s.nonce + 1 = omega arith in
      (
        rw next (record {
          receiver = rw (← ap (λ r. r.0) got) step.states;
          keyed = h.keyed;
          transport = h.transport;
          ahead = λ d. unfold contains in ground (arith, count, h.ahead d);
          near = unfold newest in ground (arith, count, h.near);
        }),
        step.reply ∙ ap (λ r. r.1) got,
      )

  send_all_ok :
      (s : NoiseCipherState) (plaintext aad : List ℕ) (ms fs : List Received)
      → send_all s ((plaintext, aad) ∷ ms) ≡ some fs
      → (frame : List ℕ) × (rest : List Received) × ((encrypt aead s plaintext aad).1 ≡ ok frame)
        × (send_all (encrypt aead s plaintext aad).0 ms ≡ some rest)
        × (fs ≡ (frame, aad) ∷ rest)
  unfolding send_all
  send_all_ok s plaintext aad ms fs h =
      go (encrypt aead s plaintext aad).1 (send_all (encrypt aead s plaintext aad).0 ms) refl refl h
    where
      go :
          (reply : Result NoiseError (List ℕ)) (rest : Option (List Received))
          → (encrypt aead s plaintext aad).1 ≡ reply
          → send_all (encrypt aead s plaintext aad).0 ms ≡ rest
          → add_frame aad reply rest ≡ some fs
          → (frame : List ℕ) × (rest : List Received) × ((encrypt aead s plaintext aad).1
              ≡ ok frame)
            × (send_all (encrypt aead s plaintext aad).0 ms ≡ some rest)
            × (fs ≡ (frame, aad) ∷ rest)
      go (ok frame) (some rest) e r h = (frame, rest, e, r, ground (arith, h))
      go (ok frame) none e r h = cc
      go (err bad) rest e r h = cc

  delivers :
      (s c : NoiseCipherState) (accepted : Accepted) (ms fs : List Received)
      → IsAead aead
      → InStep s c accepted
      → s.nonce + length ms ≤ 2 ^ 32
      → send_all s ms ≡ some fs
      → replies aead c fs ≡ map (λ m. ok m.0) ms
  delivers s c accepted [] fs law h small sent =
      let empty : [] ≡ fs = unfold send_all in ground (arith, sent) in
      rw (← empty) (unfold replies in refl)
  delivers s c accepted ((plaintext, aad) ∷ ms) fs law h small sent =
      let (frame, rest, one, others, shape) = send_all_ok s plaintext aad ms fs sent in
      let (kept, opened) = step_delivers s c accepted plaintext aad frame law h (omega arith) one in
      let (_, _, _, next) = encrypt_ok aead key s plaintext aad frame h.keyed h.transport one in
      let counted : (encrypt aead s plaintext aad).0.nonce ≡ s.nonce + 1 =
        ap (λ c. c.nonce) next ∙ omega arith in
      let later =
        delivers (encrypt aead s plaintext aad).0 (decrypt aead c frame aad).0 (s.nonce ∷ accepted)
          ms rest law kept (omega (arith, counted)) others in
      rw shape (replies-cons aead c frame aad rest ∙ λ i. opened i ∷ later i)

  -- If what is unsealed is what was sealed: when a new sending cipher seals up to 2³² texts, a new
  -- receiving cipher with the same key opens the frames, in their order, to just those texts.
  pub conversation :
      (ms fs : List Received)
      → IsAead aead
      → length ms ≤ 2 ^ 32
      → send_all (new_with_key key true) ms ≡ some fs
      → replies aead (new_with_key key true) fs ≡ map (λ m. ok m.0) ms
  conversation ms fs law few sent =
      delivers (new_with_key key true) (new_with_key key true) [] ms fs law new-InStep
        (unfold new_with_key in omega arith) sent

  send_all_runs :
      (ms : List Received) (s : NoiseCipherState)
      → Seals aead
      → All (λ m. length m.0 ≤ 2 ^ 32) ms
      → is_some s.key ≡ true
      → (fs : List Received) × (send_all s ms ≡ some fs)
  unfolding send_all
  send_all_runs [] s seals few k = ([], refl)
  send_all_runs ((plaintext, aad) ∷ ms) s seals (first, others) k =
      let (c, frame, ran, kept, counted) = encrypt_runs aead s plaintext aad seals k first in
      let (fs, rest) = send_all_runs ms c seals others (ap is_some kept ∙ k) in
      ((frame, aad) ∷ fs, rw ran (rw rest refl))

  -- If what is unsealed is what was sealed, and sealing fails on no text of up to 2³² bytes: a new
  -- sending cipher seals up to 2³² such texts, and a new receiving cipher with the same key opens the
  -- frames, in their order, to just those texts.
  pub conversation_arrives :
      (ms : List Received)
      → IsAead aead
      → Seals aead
      → length ms ≤ 2 ^ 32
      → All (λ m. length m.0 ≤ 2 ^ 32) ms
      → (fs : List Received) × (send_all (new_with_key key true) ms ≡ some fs)
        × (replies aead (new_with_key key true) fs ≡ map (λ m. ok m.0) ms)
  conversation_arrives ms law seals few short =
      let (fs, sent) =
        send_all_runs ms (new_with_key key true) seals short (unfold new_with_key in refl) in
      (fs, sent, conversation ms fs law few sent)
