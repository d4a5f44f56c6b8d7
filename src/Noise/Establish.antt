-- ===== src/Noise/Establish.antt =====
-- The handshake that a session of src/noise_protocol.rs makes, the pattern XX, and the one message
-- of a courier envelope, the pattern X.
use bitmancer.Prelude.{
  ℕ, ◌+◌, ◌||◌, any, ◌≡◌, refl, ◌∙◌, sym, ap, Bool, true, false, Option, none, some, List, [], ◌∷◌,
  inl, inr, length, get_elem?, is_some, arith,
}
use bitmancer.Prelude.Results.{ok}
use bitmancer.Noise.{NoiseCipherState, new, new_with_key}
use bitmancer.Noise.Symmetric.{Primitives, xx, new_symmetric, mix_hash, split, hkdf, output_at}
use bitmancer.Noise.Handshake.{
  NoiseRole, initiator, responder, NoiseMessagePattern, message_patterns_of, e, ee, es, se, s,
  NoiseHandshakeState, Step, option_map, write_message, read_message, with_prologue,
  mix_pre_message_keys, is_handshake_complete, get_transport_ciphers,
}
use bitmancer.Noise.Transcript.{IsPrimitives}
use bitmancer.Noise.Mirror.{opposite, KnowsStatic, Mirror}
use bitmancer.Noise.Tokens.{covers, tells}
use bitmancer.Noise.Exchange.{swap-Mirror, message_Delivered}

module _ (crypto : Primitives) (law : IsPrimitives crypto) where
  -- The two ends of a new XX handshake.
  abbrev pub xx_end : NoiseRole → List ℕ → List ℕ → NoiseHandshakeState
  xx_end role secret prologue = with_prologue crypto role xx (some secret) none prologue

  xx-Mirror :
      (ours theirs prologue : List ℕ)
      → Mirror crypto (xx_end initiator ours prologue) (xx_end responder theirs prologue)
  unfolding with_prologue mix_pre_message_keys new_symmetric mix_hash new
  xx-Mirror ours theirs prologue = record {
    symmetric = refl;
    internal = refl;
    roles = refl;
    patterns = refl;
    position = refl;
    writer_static = refl;
    reader_static = refl;
    writer_ephemeral = refl;
    reader_ephemeral = refl;
    reader_told = inl refl;
    writer_told = inl refl;
  }

  -- A handshake is finished: the keys of the two ends fit, and each knows the other.
  pub record Finished (ours theirs : List ℕ) (i r : NoiseHandshakeState) : Type 0 where
    pub initiator_complete : is_handshake_complete crypto i ≡ true
    pub responder_complete : is_handshake_complete crypto r ≡ true
    pub send : NoiseCipherState
    pub receive : NoiseCipherState
    pub send_key : List ℕ
    pub receive_key : List ℕ
    pub new_send : send ≡ new_with_key send_key true
    pub new_receive : receive ≡ new_with_key receive_key true
    pub initiator_ciphers : get_transport_ciphers crypto i ≡ ok (send, receive)
    pub responder_ciphers : get_transport_ciphers crypto r ≡ ok (receive, send)
    pub responder_known : i.remote_static_public ≡ some (crypto.public_key theirs)
    pub initiator_known : r.remote_static_public ≡ some (crypto.public_key ours)
    pub same_hash : i.symmetric_state.hash ≡ r.symmetric_state.hash

  pub known_static :
      (h other : NoiseHandshakeState) (secret : List ℕ)
      → KnowsStatic crypto h other
      → other.local_static_private ≡ some secret
      → is_some h.remote_static_public ≡ true
      → h.remote_static_public ≡ some (crypto.public_key secret)
  known_static h other secret (inl p) k told = absurd (ground (arith, p, told))
  known_static h other secret (inr p) k told = p ∙ ap (option_map crypto.public_key) k

  transport-initiator :
      (h : NoiseHandshakeState)
      → h.role ≡ initiator
      → length h.message_patterns ≡ h.current_pattern
      → get_transport_ciphers crypto h
        ≡ ok ((split crypto h.symmetric_state).0, (split crypto h.symmetric_state).1)
  unfolding get_transport_ciphers is_handshake_complete
  transport-initiator h role last = ground (arith, last, role)

  transport-responder :
      (h : NoiseHandshakeState)
      → h.role ≡ responder
      → length h.message_patterns ≡ h.current_pattern
      → get_transport_ciphers crypto h
        ≡ ok ((split crypto h.symmetric_state).1, (split crypto h.symmetric_state).0)
  unfolding get_transport_ciphers is_handshake_complete
  transport-responder h role last = ground (arith, last, role)

  Mirror-Finished :
      (ours theirs : List ℕ) (i r : NoiseHandshakeState)
      → Mirror crypto i r
      → i.role ≡ initiator
      → length i.message_patterns ≡ i.current_pattern
      → i.local_static_private ≡ some ours
      → r.local_static_private ≡ some theirs
      → is_some i.remote_static_public ≡ true
      → is_some r.remote_static_public ≡ true
      → Finished ours theirs i r
  Mirror-Finished ours theirs i r m role last a b ka kb =
      let last_reader : length r.message_patterns ≡ r.current_pattern =
        ap length m.patterns ∙ last ∙ sym m.position in
      record {
        initiator_complete = unfold is_handshake_complete in ground (arith, last);
        responder_complete = unfold is_handshake_complete in ground (arith, last_reader);
        send = (split crypto i.symmetric_state).0;
        receive = (split crypto i.symmetric_state).1;
        send_key = output_at crypto (hkdf crypto i.symmetric_state.chaining_key [] 2) 0;
        receive_key = output_at crypto (hkdf crypto i.symmetric_state.chaining_key [] 2) 1;
        new_send = unfold split in refl;
        new_receive = unfold split in refl;
        initiator_ciphers = transport-initiator i role last;
        responder_ciphers =
            transport-responder r (m.roles ∙ ap opposite role) last_reader
            ∙ ap (λ st. ok ((split crypto st).1, (split crypto st).0)) m.symmetric;
        responder_known = known_static i r theirs m.writer_told b ka;
        initiator_known = known_static r i ours m.reader_told a kb;
        same_hash = ap (λ st. st.hash) (sym m.symmetric);
      }

  pub second_covered : (b : Bool) → covers responder b (e ∷ ee ∷ s ∷ es ∷ []) ≡ true
  second_covered true = refl
  second_covered false = refl

  pub third_covered : (b : Bool) → covers initiator b (s ∷ se ∷ []) ≡ true
  third_covered true = refl
  third_covered false = refl

  -- Before the message at place `n`, the writer has role `role`.
  pub record Stage (role : NoiseRole) (n : ℕ) (mine yours : List ℕ) (w r : NoiseHandshakeState)
      : Type 0 where
    pub mirror : Mirror crypto w r
    pub writing : w.role ≡ role
    pub patterns : w.message_patterns ≡ message_patterns_of xx
    pub place : w.current_pattern ≡ n
    pub writer : w.local_static_private ≡ some mine
    pub reader : r.local_static_private ≡ some yours

  pub first_Stage :
      (ours theirs prologue : List ℕ)
      → Stage initiator 0 ours theirs
          (xx_end initiator ours prologue)
          (xx_end responder theirs prologue)
  unfolding with_prologue mix_pre_message_keys
  first_Stage ours theirs prologue = record {
    mirror = xx-Mirror ours theirs prologue;
    writing = refl;
    patterns = refl;
    place = refl;
    writer = refl;
    reader = refl;
  }

  -- After a message the reader is due to write.
  pub record Turn (role : NoiseRole) (n : ℕ) (mine yours payload : List ℕ) (known : Bool)
      (knowing : Option (List ℕ)) (w' r : NoiseHandshakeState) (reading : Step (List ℕ))
      : Type 0 where
    pub opened : reading.1 ≡ ok payload
    pub stage : Stage (opposite role) (n + 1) yours mine reading.0 w'
    pub knows : w'.remote_static_public ≡ knowing
    pub told : is_some reading.0.remote_static_public ≡ known

  pub Stage-Turn :
      (role : NoiseRole) (n : ℕ) (mine yours random payload message : List ℕ)
      (w w' r : NoiseHandshakeState) (tokens : List NoiseMessagePattern)
      → Stage role n mine yours w r
      → get_elem? (message_patterns_of xx) n ≡ some tokens
      → ((b : Bool) → covers role b tokens ≡ true)
      → write_message crypto random payload w ≡ (w', ok message)
      → Turn role n mine yours payload
          (is_some r.remote_static_public || any tells tokens)
          w.remote_static_public
          w'
          r
          (read_message crypto message r)
  Stage-Turn role n mine yours random payload message w w' r tokens at here covered h =
      let d =
        message_Delivered crypto law w w' r tokens random payload message at.mirror
          (rw (at.patterns, at.place) here)
          (rw at.writing (covered (is_some r.remote_static_public))) h in
      rw d.opened (record {
        opened = refl;
        stage = record {
          mirror = swap-Mirror crypto law w' d.next d.mirrors;
          writing = d.mirrors.roles ∙ ap opposite (d.same_role ∙ at.writing);
          patterns = d.mirrors.patterns ∙ d.same_patterns ∙ at.patterns;
          place = d.mirrors.position ∙ d.moved ∙ ap (λ k. k + 1) at.place;
          writer = d.reader_kept ∙ at.reader;
          reader = d.writer_kept ∙ at.writer;
        };
        knows = d.knows;
        told = d.told;
      })

  -- If opening undoes sealing, tags have 16 bytes, public keys are valid and a Diffie-Hellman exchange
  -- gives both sides the same secret: with the same prologue, and if each message can be sealed, the
  -- three messages of an XX handshake are read by their receiver, to the payload that was written;
  -- then both ends are done, the cipher that one sends with is the one that the other receives with,
  -- each has the other's static key, and the hashes of their transcripts are equal.
  pub xx_establishes :
      (ours theirs prologue e1 e2 e3 p1 p2 p3 m1 m2 m3 : List ℕ) (i1 r2 i3 : NoiseHandshakeState)
      → write_message crypto e1 p1 (xx_end initiator ours prologue) ≡ (i1, ok m1)
      → write_message crypto e2 p2 (read_message crypto m1 (xx_end responder theirs prologue)).0
        ≡ (r2, ok m2)
      → write_message crypto e3 p3 (read_message crypto m2 i1).0 ≡ (i3, ok m3)
      → ((read_message crypto m1 (xx_end responder theirs prologue)).1 ≡ ok p1)
        × ((read_message crypto m2 i1).1 ≡ ok p2)
        × ((read_message crypto m3 r2).1 ≡ ok p3)
        × Finished ours theirs i3 (read_message crypto m3 r2).0
  xx_establishes ours theirs prologue e1 e2 e3 p1 p2 p3 m1 m2 m3 i1 r2 i3 first second third =
      let t1 =
        Stage-Turn initiator 0 ours theirs e1 p1 m1 (xx_end initiator ours prologue) i1
          (xx_end responder theirs prologue) (e ∷ []) (first_Stage ours theirs prologue) refl
          (λ b. refl) first in
      let t2 =
        Stage-Turn responder 1 theirs ours e2 p2 m2 _ r2 i1 (e ∷ ee ∷ s ∷ es ∷ []) t1.stage refl
          second_covered second in
      let t3 =
        Stage-Turn initiator 2 ours theirs e3 p3 m3 _ i3 r2 (s ∷ se ∷ []) t2.stage refl
          third_covered third in
      (
        t1.opened,
        t2.opened,
        t3.opened,
        Mirror-Finished ours theirs i3 (read_message crypto m3 r2).0
            (swap-Mirror crypto law _ i3 t3.stage.mirror)
            (t3.stage.mirror.roles ∙ ap opposite t3.stage.writing)
            (ap length (t3.stage.mirror.patterns ∙ t3.stage.patterns)
              ∙ sym (t3.stage.mirror.position ∙ t3.stage.place))
            t3.stage.reader t3.stage.writer (ground (arith, ap is_some t3.knows, t2.told))
            (ground (arith, t3.told)),
      )
