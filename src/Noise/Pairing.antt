-- ===== src/Noise/Pairing.antt =====
-- Two sessions of src/noise_session.rs that pass each other's messages on are paired in the end.
use bitmancer.Prelude.{
  ℕ, ◌≡◌, refl, ◌∙◌, sym, ap, true, false, none, some, List, [], ◌∷◌, ◌++◌, String, leb, arith,
}
use bitmancer.Prelude.Results.{ok}
use bitmancer.Noise.{NoiseCipherState, new_with_key}
use bitmancer.Noise.Symmetric.{Primitives}
use bitmancer.Noise.Handshake.{
  NoiseRole, initiator, responder, NoiseHandshakeState, Step, new_handshake, write_message,
  read_message, is_handshake_complete, get_transport_ciphers,
}
use bitmancer.Noise.Transcript.{IsPrimitives}
use bitmancer.Noise.Sealing.{Seals}
use bitmancer.Noise.Establish.{xx_end, Stage}
use bitmancer.Noise.Progress.{xx_run}
use bitmancer.Noise.Session.{
  NoiseSession, handshaking, established, is_established, xx_handshake, initiating, responding,
  start_handshake, establish, advance_handshake, prepared, continue_handshake,
  process_handshake_message,
}

as_ok : {A : Type 0} (step : Step A) (a : A) → step.1 ≡ ok a → step ≡ (step.0, ok a)
as_ok step a h = ap (λ r. (step.0, r)) h

module _ (crypto : Primitives) where
  -- Both sessions are established, each with the other's key, and what one sends with, the other
  -- receives with.
  pub record Paired (ours theirs : List ℕ) (i r : NoiseSession) : Type 0 where
    pub send_key : List ℕ
    pub receive_key : List ℕ
    pub hash : List ℕ
    pub initiator_established : is_established i ≡ true
    pub responder_established : is_established r ≡ true
    pub initiator_send : i.send_cipher ≡ some (new_with_key send_key true)
    pub initiator_receive : i.receive_cipher ≡ some (new_with_key receive_key true)
    pub responder_send : r.send_cipher ≡ some (new_with_key receive_key true)
    pub responder_receive : r.receive_cipher ≡ some (new_with_key send_key true)
    pub responder_known : i.remote_static_public_key ≡ some (crypto.public_key theirs)
    pub initiator_known : r.remote_static_public_key ≡ some (crypto.public_key ours)
    pub initiator_hash : i.handshake_hash ≡ some hash
    pub responder_hash : r.handshake_hash ≡ some hash

  -- A session in its handshake, with what it has sent.
  abbrev midway : NoiseSession → NoiseHandshakeState → List (List ℕ) → NoiseSession
  midway session h sent = record session {
    state = handshaking;
    handshake_state = some h;
    sent_handshake_messages = sent;
  }

  abbrev settled :
      NoiseSession
      → NoiseHandshakeState
      → List (List ℕ)
      → NoiseCipherState
      → NoiseCipherState
      → NoiseSession
  settled session h sent send receive = record session {
    state = established;
    handshake_state = none;
    send_cipher = some send;
    receive_cipher = some receive;
    remote_static_public_key = h.remote_static_public;
    sent_handshake_messages = sent;
    handshake_hash = some h.symmetric_state.hash;
  }

  continue_answers :
      (random message payload response : List ℕ) (sent : List (List ℕ)) (session : NoiseSession)
      (h h' h'' : NoiseHandshakeState)
      → read_message crypto message h ≡ (h', ok payload)
      → is_handshake_complete crypto h' ≡ false
      → write_message crypto random [] h' ≡ (h'', ok response)
      → is_handshake_complete crypto h'' ≡ false
      → process_handshake_message crypto random message (midway session h sent)
        ≡ (midway session h'' (sent ++ (response ∷ [])), ok (some response))
  unfolding process_handshake_message prepared continue_handshake advance_handshake
  continue_answers random message payload response sent session h h' h'' read ongoing wrote still =
      rw read (rw ongoing (rw wrote (rw still refl)))

  continue_settles :
      (random message payload response : List ℕ) (sent : List (List ℕ)) (session : NoiseSession)
      (h h' h'' : NoiseHandshakeState) (send receive : NoiseCipherState)
      → read_message crypto message h ≡ (h', ok payload)
      → is_handshake_complete crypto h' ≡ false
      → write_message crypto random [] h' ≡ (h'', ok response)
      → is_handshake_complete crypto h'' ≡ true
      → get_transport_ciphers crypto h'' ≡ ok (send, receive)
      → process_handshake_message crypto random message (midway session h sent)
        ≡ (settled session h'' (sent ++ (response ∷ [])) send receive, ok (some response))
  unfolding process_handshake_message prepared continue_handshake advance_handshake establish
  continue_settles random message payload response sent session h h' h'' send receive read ongoing
        wrote done split =
      rw read (rw ongoing (rw wrote (rw done (rw split refl))))

  settles :
      (random message payload : List ℕ) (sent : List (List ℕ)) (session : NoiseSession)
      (h h' : NoiseHandshakeState) (send receive : NoiseCipherState)
      → read_message crypto message h ≡ (h', ok payload)
      → is_handshake_complete crypto h' ≡ true
      → get_transport_ciphers crypto h' ≡ ok (send, receive)
      → process_handshake_message crypto random message (midway session h sent)
        ≡ (settled session h' sent send receive, ok none)
  unfolding process_handshake_message prepared continue_handshake advance_handshake establish
  settles random message payload sent session h h' send receive read done split =
      rw read (rw done (rw split refl))

  start_sends :
      (random message key : List ℕ) (peer_id : String) (h : NoiseHandshakeState)
      → write_message crypto random [] (xx_handshake crypto initiator key) ≡ (h, ok message)
      → start_handshake crypto random (initiating crypto peer_id key)
        ≡ (midway (initiating crypto peer_id key) h (message ∷ []), ok message)
  unfolding start_handshake
  start_sends random message key peer_id h wrote = rw wrote refl

  prepares :
      (random message key : List ℕ) (peer_id : String)
      → process_handshake_message crypto random message (responding crypto peer_id key)
        ≡ process_handshake_message crypto random message
            (midway (responding crypto peer_id key) (xx_handshake crypto responder key) [])
  unfolding process_handshake_message prepared
  prepares random message key peer_id = refl

module _ (crypto : Primitives) (law : IsPrimitives crypto) (seals : Seals crypto.aead) where
  same_end :
      (role : NoiseRole) (key : List ℕ)
      → xx_handshake crypto role key ≡ xx_end crypto law role key []
  unfolding new_handshake
  same_end role key = refl

  early :
      (role : NoiseRole) (n : ℕ) (mine yours : List ℕ) (w r : NoiseHandshakeState)
      → Stage crypto law role n mine yours w r
      → leb 3 n ≡ false
      → (is_handshake_complete crypto w ≡ false) × (is_handshake_complete crypto r ≡ false)
  unfolding is_handshake_complete
  early role n mine yours w r at soon = (
    rw (at.patterns, at.place) soon,
    rw (at.mirror.patterns, at.mirror.position, at.patterns, at.place) soon,
  )

  -- If opening undoes sealing, sealing fails on no text of up to 2³² bytes, tags have 16 bytes, public
  -- keys are valid and a Diffie-Hellman exchange gives both sides the same secret: when one session
  -- starts a handshake with a new session of its peer and each is given what the other answers, three
  -- messages are sent, none is refused, and in the end both sessions are established: each knows the
  -- other's static key, what one sends with is what the other receives with, and both have the same
  -- handshake hash.
  pub sessions_pair :
      (ours theirs e1 e2 e3 e4 : List ℕ) (us them : String)
      → (m1 : List ℕ) × (m2 : List ℕ) × (m3 : List ℕ) × (i1 : NoiseSession) × (r2 : NoiseSession)
        × (i3 : NoiseSession) × (r3 : NoiseSession) × (start_handshake crypto e1
              (initiating crypto them ours)
            ≡ (i1, ok m1))
        × (process_handshake_message crypto e2 m1 (responding crypto us theirs)
            ≡ (r2, ok (some m2)))
        × (process_handshake_message crypto e3 m2 i1 ≡ (i3, ok (some m3)))
        × (process_handshake_message crypto e4 m3 r2 ≡ (r3, ok none))
        × Paired crypto ours theirs i3 r3
  sessions_pair ours theirs e1 e2 e3 e4 us them =
      let r =
        xx_run crypto law seals ours theirs [] e1 e2 e3 [] [] [] (omega arith) (omega arith)
          (omega arith) in
      let f = r.finished in
      let first = early responder 1 theirs ours _ r.i1 r.stage1 refl in
      let second = early initiator 2 ours theirs _ r.r2 r.stage2 refl in
      let initial = initiating crypto them ours in
      let other = responding crypto us theirs in
      let i3 = settled crypto initial r.i3 (r.m1 ∷ r.m3 ∷ []) f.send f.receive in
      let r3 =
        settled crypto other (read_message crypto r.m3 r.r2).0 (r.m2 ∷ []) f.receive f.send in
      (
        r.m1,
        r.m2,
        r.m3,
        midway crypto initial r.i1 (r.m1 ∷ []),
        midway crypto other r.r2 (r.m2 ∷ []),
        i3,
        r3,
        start_sends crypto e1 r.m1 ours them r.i1 (rw (same_end initiator ours) r.sent1),
        prepares crypto e2 r.m1 theirs us
            ∙ continue_answers crypto e2 r.m1 [] r.m2 [] other
                (xx_handshake crypto responder theirs) _ r.r2
                (rw (same_end responder theirs) (as_ok _ [] r.opened1)) first.0 r.sent2 second.1,
        continue_settles crypto e3 r.m2 [] r.m3 (r.m1 ∷ []) initial r.i1 _ r.i3 f.send f.receive
            (as_ok _ [] r.opened2) second.0 r.sent3 f.initiator_complete f.initiator_ciphers,
        settles crypto e4 r.m3 [] (r.m2 ∷ []) other r.r2 _ f.receive f.send (as_ok _ [] r.opened3)
            f.responder_complete f.responder_ciphers,
        record {
          send_key = f.send_key;
          receive_key = f.receive_key;
          hash = r.i3.symmetric_state.hash;
          initiator_established = refl;
          responder_established = refl;
          initiator_send = ap some f.new_send;
          initiator_receive = ap some f.new_receive;
          responder_send = ap some f.new_receive;
          responder_receive = ap some f.new_send;
          responder_known = f.responder_known;
          initiator_known = f.initiator_known;
          initiator_hash = refl;
          responder_hash = ap some (sym f.same_hash);
        },
      )
