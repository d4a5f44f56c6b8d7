-- ===== src/Noise/Session.antt =====
-- A session with a peer (src/noise_session.rs): the handshake, message by message, and the transport
-- that it leads to. The random secret of an ephemeral key is an argument.
use bitmancer.Prelude.{
  ℕ, Bool, true, false, Option, none, some, List, [], ◌∷◌, ◌++◌, String, if◌then◌else◌,
}
use bitmancer.Prelude.Results.{Result, ok, err}
use bitmancer.Noise.{NoiseError, invalid_state, not_established, NoiseCipherState, encrypt, decrypt}
use bitmancer.Noise.Symmetric.{Primitives, xx}
use bitmancer.Noise.Handshake.{
  NoiseRole, initiator, responder, NoiseHandshakeState, Step, new_handshake, write_message,
  read_message, is_handshake_complete, get_transport_ciphers,
}

pub data NoiseSessionState : Type 0 where
  uninitialized handshaking established : NoiseSessionState

pub record NoiseSession : Type 0 where
  pub peer_id : String
  pub role : NoiseRole
  pub state : NoiseSessionState
  pub handshake_state : Option NoiseHandshakeState
  pub send_cipher : Option NoiseCipherState
  pub receive_cipher : Option NoiseCipherState
  pub local_static_key : List ℕ
  pub remote_static_public_key : Option (List ℕ)
  pub sent_handshake_messages : List (List ℕ)
  pub handshake_hash : Option (List ℕ)

abbrev pub is_established : NoiseSession → Bool
is_established s = elim s.state [ uninitialized ↦ false | handshaking ↦ false | established ↦ true ]

-- A call that may fail, with the session it leaves in either case.
abbrev pub Reply : Type 0 → Type 0
Reply A = NoiseSession × Result NoiseError A

module _ (crypto : Primitives) where
  abbrev pub xx_handshake : NoiseRole → List ℕ → NoiseHandshakeState
  xx_handshake role key = new_handshake crypto role xx (some key) none

  -- The sessions that the manager creates.
  abbrev pub initiating : String → List ℕ → NoiseSession
  initiating peer_id key = record {
    peer_id = peer_id;
    role = initiator;
    state = handshaking;
    handshake_state = some (xx_handshake initiator key);
    send_cipher = none;
    receive_cipher = none;
    local_static_key = key;
    remote_static_public_key = none;
    sent_handshake_messages = [];
    handshake_hash = none;
  }

  abbrev pub responding : String → List ℕ → NoiseSession
  responding peer_id key = record {
    peer_id = peer_id;
    role = responder;
    state = uninitialized;
    handshake_state = none;
    send_cipher = none;
    receive_cipher = none;
    local_static_key = key;
    remote_static_public_key = none;
    sent_handshake_messages = [];
    handshake_hash = none;
  }

  -- A message that is written is kept with those sent before.
  abbrev pub note_sent : NoiseSession → Step (List ℕ) → Reply (List ℕ)
  note_sent session (h, ok message) = (
    record session {
      handshake_state = some h;
      sent_handshake_messages = session.sent_handshake_messages ++ (message ∷ []);
    },
    ok message,
  )
  note_sent session (h, err bad) = (record session { handshake_state = some h }, err bad)

  -- The start of a handshake, in `initiate_handshake` of the manager.
  unfoldable pub start_handshake : List ℕ → NoiseSession → Reply (List ℕ)
  start_handshake random session = elim session.handshake_state [
    | none ↦ (session, err invalid_state)
    | some h ↦ note_sent session (write_message crypto random [] h)
  ]

  abbrev pub with_ciphers :
      Option (List ℕ)
      → NoiseHandshakeState
      → NoiseSession
      → Result NoiseError (NoiseCipherState × NoiseCipherState)
      → Reply (Option (List ℕ))
  with_ciphers response h session (err bad) = (session, err bad)
  with_ciphers response h session (ok (send, receive)) = (
    record session {
      state = established;
      handshake_state = none;
      send_cipher = some send;
      receive_cipher = some receive;
      remote_static_public_key = h.remote_static_public;
      handshake_hash = some h.symmetric_state.hash;
    },
    ok response,
  )

  -- The session is established with the ciphers of a complete handshake.
  unfoldable pub establish :
      Option (List ℕ) → NoiseHandshakeState → NoiseSession → Reply (Option (List ℕ))
  establish response h session = with_ciphers response h session (get_transport_ciphers crypto h)

  abbrev pub after_response : NoiseHandshakeState → Reply (List ℕ) → Reply (Option (List ℕ))
  after_response h (session, err bad) = (session, err bad)
  after_response h (session, ok response) =
      if is_handshake_complete crypto h
      then establish (some response) h session
      else (session, ok (some response))

  unfoldable pub advance_handshake :
      List ℕ → NoiseHandshakeState → NoiseSession → Reply (Option (List ℕ))
  unfolding establish
  advance_handshake random h session =
      if is_handshake_complete crypto h
      then establish none h session
      else (let step = write_message crypto random [] h in
          after_response step.0 (note_sent session step))

  abbrev pub after_read : List ℕ → NoiseSession → Step (List ℕ) → Reply (Option (List ℕ))
  after_read random session (h, err bad) = (record session { handshake_state = some h }, err bad)
  after_read random session (h, ok payload) =
      advance_handshake random h (record session { handshake_state = some h })

  -- A responder sets up its handshake when the first message comes.
  unfoldable pub prepared : NoiseSession → NoiseSession
  prepared session = elim session.state [
    | uninitialized ↦ elim session.role [
      | initiator ↦ session
      | responder ↦ record session {
        handshake_state = some (xx_handshake session.role session.local_static_key);
        state = handshaking;
      }
    ]
    | handshaking ↦ session
    | established ↦ session
  ]

  unfoldable pub continue_handshake : List ℕ → List ℕ → NoiseSession → Reply (Option (List ℕ))
  unfolding advance_handshake
  continue_handshake random message session = elim session.state [
    | uninitialized ↦ (session, err invalid_state)
    | handshaking ↦ elim session.handshake_state [
      | none ↦ (session, err invalid_state)
      | some h ↦ after_read random session (read_message crypto message h)
    ]
    | established ↦ (session, err invalid_state)
  ]

  unfoldable pub process_handshake_message :
      List ℕ → List ℕ → NoiseSession → Reply (Option (List ℕ))
  unfolding prepared continue_handshake
  process_handshake_message random message session =
      continue_handshake random message (prepared session)

  abbrev pub with_send_cipher :
      NoiseSession → NoiseCipherState × Result NoiseError (List ℕ) → Reply (List ℕ)
  with_send_cipher session (c, reply) = (record session { send_cipher = some c }, reply)

  unfoldable pub session_encrypt : List ℕ → NoiseSession → Reply (List ℕ)
  session_encrypt plaintext session =
      if is_established session
      then elim session.send_cipher [
        | none ↦ (session, err not_established)
        | some c ↦ with_send_cipher session (encrypt crypto.aead c plaintext [])
      ]
      else (session, err not_established)

  abbrev pub with_receive_cipher :
      NoiseSession → NoiseCipherState × Result NoiseError (List ℕ) → Reply (List ℕ)
  with_receive_cipher session (c, reply) = (record session { receive_cipher = some c }, reply)

  unfoldable pub session_decrypt : List ℕ → NoiseSession → Reply (List ℕ)
  session_decrypt ciphertext session =
      if is_established session
      then elim session.receive_cipher [
        | none ↦ (session, err not_established)
        | some c ↦ with_receive_cipher session (decrypt crypto.aead c ciphertext [])
      ]
      else (session, err not_established)
