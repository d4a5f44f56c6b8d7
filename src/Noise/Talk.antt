-- ===== src/Noise/Talk.antt =====
-- What sessions of src/noise_session.rs say to each other once they are paired.
use bitmancer.Prelude.{
  ℕ, ◌+◌, ◌^◌, ◌≤◌, ◌≡◌, refl, ap, true, some, List, [], ◌∷◌, length, map, All, is_some, arith,
}
use bitmancer.Prelude.Results.{Result, ok, err}
use bitmancer.Noise.{NoiseError, NoiseCipherState, new_with_key, encrypt, decrypt}
use bitmancer.Noise.Window.{Accepted}
use bitmancer.Noise.Symmetric.{Primitives}
use bitmancer.Noise.Delivery.{IsAead}
use bitmancer.Noise.Sealing.{Seals, encrypt_runs}
use bitmancer.Noise.Conversation.{InStep, new-InStep, step_delivers}
use bitmancer.Noise.Session.{NoiseSession, is_established, Reply, session_encrypt, session_decrypt}
use bitmancer.Noise.Pairing.{Paired}

module _ (crypto : Primitives) where
  -- What comes out at the receiver when each text that the sender seals is passed on.
  abbrev heard : Reply (List ℕ) → NoiseSession → Reply (List ℕ)
  heard (sender, err bad) receiver = (receiver, err bad)
  heard (sender, ok frame) receiver = session_decrypt crypto frame receiver

  abbrev pub hear_all :
      List (List ℕ) → NoiseSession → NoiseSession → List (Result NoiseError (List ℕ))
  hear_all [] sender receiver = []
  hear_all (text ∷ texts) sender receiver =
      let sending = session_encrypt crypto text sender in
      let hearing = heard sending receiver in hearing.1 ∷ hear_all texts sending.0 hearing.0

  says :
      (text frame : List ℕ) (s : NoiseSession) (c c' : NoiseCipherState)
      → is_established s ≡ true
      → s.send_cipher ≡ some c
      → encrypt crypto.aead c text [] ≡ (c', ok frame)
      → session_encrypt crypto text s ≡ (record s { send_cipher = some c' }, ok frame)
  unfolding session_encrypt
  says text frame s c c' e k ran = ground (arith, e, k, ran)

  hears :
      (frame text : List ℕ) (s : NoiseSession) (c : NoiseCipherState)
      → is_established s ≡ true
      → s.receive_cipher ≡ some c
      → (decrypt crypto.aead c frame []).1 ≡ ok text
      → session_decrypt crypto frame s
        ≡ (record s { receive_cipher = some (decrypt crypto.aead c frame []).0 }, ok text)
  unfolding session_decrypt
  hears frame text s c e k ran = ground (arith, e, k, ran)

module _ (crypto : Primitives) (law : IsAead crypto.aead) (seals : Seals crypto.aead)
    (key : List ℕ) where
  talk_goes_on :
      (texts : List (List ℕ)) (a b : NoiseSession) (s c : NoiseCipherState) (accepted : Accepted)
      → is_established a ≡ true
      → is_established b ≡ true
      → a.send_cipher ≡ some s
      → b.receive_cipher ≡ some c
      → InStep crypto.aead key s c accepted
      → s.nonce + length texts ≤ 2 ^ 32
      → All (λ text. length text ≤ 2 ^ 32) texts
      → hear_all crypto texts a b ≡ map ok texts
  talk_goes_on [] a b s c accepted ea eb ka kb h few short = refl
  talk_goes_on (text ∷ texts) a b s c accepted ea eb ka kb h few (first, others) =
      let (s', frame, ran, kept, counted) =
        encrypt_runs crypto.aead s text [] seals (ap is_some h.keyed) first in
      let (next, opened) =
        step_delivers crypto.aead key s c accepted text [] frame law h (omega (arith, few))
          (ap (λ p. p.1) ran) in
      let moved : InStep crypto.aead key s' (decrypt crypto.aead c frame []).0
          (s.nonce ∷ accepted) =
        rw ran at next in
      rw (says crypto text frame a s s' ea ka ran) (
        rw (hears crypto frame text b c eb kb opened) (
          ap (λ rs. ok text ∷ rs)
            (talk_goes_on texts (record a { send_cipher = some s' })
              (record b { receive_cipher = some (decrypt crypto.aead c frame []).0 }) s'
              (decrypt crypto.aead c frame []).0 (s.nonce ∷ accepted) ea eb refl refl moved
              (omega (arith, counted, few)) others)))

module _ (crypto : Primitives) (law : IsAead crypto.aead) (seals : Seals crypto.aead) where
  -- If what is unsealed is what was sealed, and sealing fails on no text of up to 2³² bytes: of two
  -- sessions that are paired, either seals up to 2³² such texts one by one, and the other opens each
  -- frame to the text it was made of.
  pub talk_arrives :
      (ours theirs : List ℕ) (i r : NoiseSession) (texts : List (List ℕ))
      → Paired crypto ours theirs i r
      → length texts ≤ 2 ^ 32
      → All (λ text. length text ≤ 2 ^ 32) texts
      → (hear_all crypto texts i r ≡ map ok texts) × (hear_all crypto texts r i ≡ map ok texts)
  talk_arrives ours theirs i r texts p few short =
      let start : (key : List ℕ) → (new_with_key key true).nonce + length texts ≤ 2 ^ 32 =
        λ key. unfold new_with_key in omega (arith, few) in
      (
        talk_goes_on crypto law seals p.send_key texts i r _ _ [] p.initiator_established
            p.responder_established p.initiator_send p.responder_receive
            (new-InStep crypto.aead p.send_key) (start p.send_key) short,
        talk_goes_on crypto law seals p.receive_key texts r i _ _ [] p.responder_established
            p.initiator_established p.responder_send p.initiator_receive
            (new-InStep crypto.aead p.receive_key) (start p.receive_key) short,
      )
