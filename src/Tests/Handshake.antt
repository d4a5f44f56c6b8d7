-- ===== src/Tests/Handshake.antt =====
-- Runs of the handshake of src/noise_protocol.rs.
use bitmancer.Prelude.{
  ℕ, ◌≡◌, refl, true, Option, none, some, List, [], ◌∷◌, ◌++◌, length, replicate, drop, map, arith,
}
use bitmancer.Prelude.Results.{ok}
use bitmancer.Prelude.Sets.{contains}
use bitmancer.Noise.PublicKey.{validate_public_key}
use bitmancer.Noise.Symmetric.{Primitives}
use bitmancer.Noise.{new_with_key}
use bitmancer.Noise.Handshake.{
  NoiseRole, NoiseHandshakeState, initiator, responder, write_message, read_message,
}
use bitmancer.Noise.Transcript.{IsPrimitives}
use bitmancer.Noise.Sealing.{Seals}
use bitmancer.Noise.Establish.{Finished, xx_end}
use bitmancer.Noise.Progress.{xx_completes}
use bitmancer.Noise.Session.{
  established, NoiseSession, start_handshake, process_handshake_message, initiating, responding,
}
use bitmancer.Noise.Talk.{hear_all, talk_arrives}
use bitmancer.Noise.Pairing.{Paired, sessions_pair}

-- Primitives for the runs: a tag of sixteen zeros, and functions that are constant or nearly so.
abbrev some_key : List ℕ
some_key = 9 ∷ replicate 31 0

abbrev pub toy : Primitives
toy = record {
  aead = record {
    seal = λ key nonce aad text. some (replicate 16 0 ++ text);
    unseal = λ key nonce aad text. some (drop 16 text);
  };
  sha256 = λ bytes. length bytes ∷ replicate 31 0;
  hmac = λ key bytes. length bytes ∷ replicate 31 0;
  public_key = λ secret. some_key;
  diffie_hellman = λ secret key. replicate 32 1;
}

valid_key : validate_public_key some_key ≡ ok some_key
unfolding validate_public_key contains
valid_key = refl

tagged_text :
    (plaintext ciphertext : List ℕ)
    → ◌≡◌ {A = Option (List ℕ)} (some (replicate 16 0 ++ plaintext)) (some ciphertext)
    → replicate 16 0 ++ plaintext ≡ ciphertext
tagged_text plaintext ciphertext h = ground (arith, h)

pub toy-IsPrimitives : IsPrimitives toy
toy-IsPrimitives = record {
  opens = λ key nonce aad plaintext ciphertext h. rw (← tagged_text plaintext ciphertext h) refl;
  tag = λ key nonce aad plaintext ciphertext h.
      rw (← tagged_text plaintext ciphertext h) (omega arith);
  valid = λ secret. valid_key;
  commutes = λ a b. refl;
}

pub toy-Seals : Seals toy.aead
toy-Seals key nonce aad plaintext few = refl

-- An XX handshake of the secrets 1 and 2, with "a", "b" and "c" as payloads.
xx_completes_example :
    (m1 : List ℕ) × (m2 : List ℕ) × (m3 : List ℕ) × (i1 : NoiseHandshakeState)
    × (r2 : NoiseHandshakeState) × (i3 : NoiseHandshakeState) × (write_message toy
          (3 ∷ [])
          (97 ∷ [])
          (xx_end toy toy-IsPrimitives initiator (1 ∷ []) [])
        ≡ (i1, ok m1))
    × ((read_message toy m1 (xx_end toy toy-IsPrimitives responder (2 ∷ []) [])).1 ≡ ok (97 ∷ []))
    × (write_message toy
          (4 ∷ [])
          (98 ∷ [])
          (read_message toy m1 (xx_end toy toy-IsPrimitives responder (2 ∷ []) [])).0
        ≡ (r2, ok m2))
    × ((read_message toy m2 i1).1 ≡ ok (98 ∷ []))
    × (write_message toy [] (99 ∷ []) (read_message toy m2 i1).0 ≡ (i3, ok m3))
    × ((read_message toy m3 r2).1 ≡ ok (99 ∷ []))
    × Finished toy toy-IsPrimitives (1 ∷ []) (2 ∷ []) i3 (read_message toy m3 r2).0
xx_completes_example =
    xx_completes toy toy-IsPrimitives toy-Seals (1 ∷ []) (2 ∷ []) [] (3 ∷ []) (4 ∷ []) [] (97 ∷ [])
      (98 ∷ []) (99 ∷ []) (omega arith) (omega arith) (omega arith)

-- The sessions of the secrets 1 and 2.
sessions_pair_example :
    (m1 : List ℕ) × (m2 : List ℕ) × (m3 : List ℕ) × (i1 : NoiseSession) × (r2 : NoiseSession)
    × (i3 : NoiseSession) × (r3 : NoiseSession) × (start_handshake toy
          (3 ∷ [])
          (initiating toy "bob" (1 ∷ []))
        ≡ (i1, ok m1))
    × (process_handshake_message toy (4 ∷ []) m1 (responding toy "alice" (2 ∷ []))
        ≡ (r2, ok (some m2)))
    × (process_handshake_message toy [] m2 i1 ≡ (i3, ok (some m3)))
    × (process_handshake_message toy [] m3 r2 ≡ (r3, ok none))
    × Paired toy (1 ∷ []) (2 ∷ []) i3 r3
sessions_pair_example =
    sessions_pair toy toy-IsPrimitives toy-Seals (1 ∷ []) (2 ∷ []) (3 ∷ []) (4 ∷ []) [] [] "alice"
      "bob"

-- Two sessions with the keys 5 and 6.
abbrev paired : NoiseRole → List ℕ → List ℕ → NoiseSession
paired role sending receiving = record {
  peer_id = "";
  role = role;
  state = established;
  handshake_state = none;
  send_cipher = some (new_with_key sending true);
  receive_cipher = some (new_with_key receiving true);
  local_static_key = [];
  remote_static_public_key = some some_key;
  sent_handshake_messages = [];
  handshake_hash = some [];
}

paired-Paired :
    Paired toy [] [] (paired initiator (5 ∷ []) (6 ∷ [])) (paired responder (6 ∷ []) (5 ∷ []))
paired-Paired = record {
  send_key = 5 ∷ [];
  receive_key = 6 ∷ [];
  hash = [];
  initiator_established = refl;
  responder_established = refl;
  initiator_send = refl;
  initiator_receive = refl;
  responder_send = refl;
  responder_receive = refl;
  responder_known = refl;
  initiator_known = refl;
  initiator_hash = refl;
  responder_hash = refl;
}

abbrev words : List (List ℕ)
words = (104 ∷ []) ∷ (105 ∷ 33 ∷ []) ∷ []

talk_arrives_example :
    (hear_all toy words (paired initiator (5 ∷ []) (6 ∷ [])) (paired responder (6 ∷ []) (5 ∷ []))
      ≡ map ok words)
    × (hear_all toy words (paired responder (6 ∷ []) (5 ∷ [])) (paired initiator (5 ∷ []) (6 ∷ []))
        ≡ map ok words)
talk_arrives_example =
    talk_arrives toy toy-IsPrimitives.opens toy-Seals [] [] (paired initiator (5 ∷ []) (6 ∷ []))
      (paired responder (6 ∷ []) (5 ∷ [])) words paired-Paired (omega arith)
      (omega arith, (omega arith, tt))
